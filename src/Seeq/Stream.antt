-- ===== src/Seeq/Stream.antt =====
-- Runs of the Ethernet controller: the frames that arrive and the bytes that the DMA takes.
use interp_mips.Prelude.{
  ℕ, ◌≡◌, refl, sym, ap, ◌∙◌, Bool, true, false, if◌then◌else◌, List, [], ◌∷◌,
}
use mathlib.Core.List.{◌++◌, append_assoc}
use interp_mips.Seeq.{SgiSeeq, stage, rx_avail, rx_dma_r, stage_next, next_byte, raise_interrupt}

-- The controller with the guest: the frames that its DMA has taken, and the bytes of the next one.
pub record Guest : Type 0 where
  pub seeq : SgiSeeq
  pub frames : List (List ℕ)
  pub partial : List ℕ

-- A byte taken from a controller that has one.
abbrev pub took_by : ℕ × Bool × SgiSeeq → Guest → Guest
took_by r w =
    let f = w.partial ++ (r.0 ∷ []) in
    if r.1
    then record { seeq = r.2; frames = w.frames ++ (f ∷ []); partial = [] }
    else record { seeq = r.2; frames = w.frames; partial = f }

abbrev pub took : SgiSeeq → Guest → Guest
took c w = took_by (rx_dma_r c) w

-- A round of the receive loop of the DMA.
abbrev pub take_from : Bool × SgiSeeq → Guest → Guest
take_from a w = if a.0 then took (a.1) w else record w { seeq = a.1 }

abbrev pub take : Guest → Guest
take w = take_from (rx_avail w.seeq) w

abbrev pub staged : List (List ℕ) → List (List ℕ)
staged [] = []
staged (f ∷ fs) = stage f ∷ staged fs

-- The frame that is being taken.
abbrev pub pending : List ℕ → List ℕ → List (List ℕ)
pending start [] = []
pending start (b ∷ bs) = (start ++ (b ∷ bs)) ∷ []

-- All the frames on their way to the guest, in order.
abbrev pub flow : Guest → List (List ℕ)
flow w = w.frames ++ (pending w.partial w.seeq.rx_rest ++ staged w.seeq.rx_queue)

-- Between two frames the guest has no part of one.
abbrev pub is_between : List ℕ → List ℕ → Bool
is_between (b ∷ bs) [] = false
is_between _ _ = true

abbrev pub is_valid : Guest → Bool
is_valid w = is_between w.partial w.seeq.rx_rest

none_of : (bs : List ℕ) → is_between bs [] ≡ true → bs ≡ []
none_of [] e = refl
none_of (b ∷ bs) e = absurd cc

is_between_some : (bs : List ℕ) (d : ℕ) (ds : List ℕ) → is_between bs (d ∷ ds) ≡ true
is_between_some [] d ds = refl
is_between_some (b ∷ bs) d ds = refl

-- A byte taken is the next one of its frame, and ends it where it is the last.
took_keeps :
    (b : ℕ) (bs : List ℕ) (c : SgiSeeq) (w : Guest)
    → c.rx_rest ≡ b ∷ bs
    → flow (took c w) ≡ w.frames ++ ((w.partial ++ (b ∷ bs)) ∷ staged c.rx_queue)
unfolding rx_dma_r next_byte raise_interrupt
took_keeps b [] c w e =
    ap (λ rest. flow (took_by (next_byte rest c) w)) e
    ∙ append_assoc w.frames ((w.partial ++ (b ∷ [])) ∷ []) (staged c.rx_queue)
took_keeps b (d ∷ bs) c w e =
    ap (λ rest. flow (took_by (next_byte rest c) w)) e
    ∙ ap (λ f. w.frames ++ (f ∷ staged c.rx_queue)) (append_assoc w.partial (b ∷ []) (d ∷ bs))

took_valid :
    (b : ℕ) (bs : List ℕ) (c : SgiSeeq) (w : Guest)
    → c.rx_rest ≡ b ∷ bs
    → is_valid (took c w) ≡ true
unfolding rx_dma_r next_byte raise_interrupt
took_valid b [] c w e = ap (λ rest. is_valid (took_by (next_byte rest c) w)) e
took_valid b (d ∷ bs) c w e =
    ap (λ rest. is_valid (took_by (next_byte rest c) w)) e
    ∙ is_between_some (w.partial ++ (b ∷ [])) d bs

-- A round, by what is left of the stream and the queue.
pub take_keeps :
    (rest : List ℕ) (fs : List (List ℕ)) (w : Guest)
    → is_valid w ≡ true
    → w.seeq.rx_rest ≡ rest
    → w.seeq.rx_queue ≡ fs
    → flow (take_from (stage_next rest fs w.seeq) w)
      ≡ w.frames ++ (pending w.partial rest ++ staged fs)
unfolding stage_next stage
take_keeps (b ∷ bs) fs w v e q =
    took_keeps b bs w.seeq w e ∙ ap (λ u. w.frames ++ ((w.partial ++ (b ∷ bs)) ∷ staged u)) q
take_keeps [] [] w v e q =
    ap (λ rest. w.frames ++ (pending w.partial rest ++ staged w.seeq.rx_queue)) e
    ∙ ap (λ u. w.frames ++ staged u) q
take_keeps [] (f ∷ fs) w v e q =
    let none = none_of w.partial (sym (ap (is_between w.partial) e) ∙ v) in
    took_keeps 0 _ (record (w.seeq) { rx_rest = stage f; rx_queue = fs }) w refl
    ∙ ap (λ start. w.frames ++ ((start ++ stage f) ∷ staged fs)) none

pub take_valid :
    (rest : List ℕ) (fs : List (List ℕ)) (w : Guest)
    → is_valid w ≡ true
    → w.seeq.rx_rest ≡ rest
    → is_valid (take_from (stage_next rest fs w.seeq) w) ≡ true
unfolding stage_next stage
take_valid (b ∷ bs) fs w v e = took_valid b bs w.seeq w e
take_valid [] [] w v e = v
take_valid [] (f ∷ fs) w v e =
    took_valid 0 _ (record (w.seeq) { rx_rest = stage f; rx_queue = fs }) w refl
