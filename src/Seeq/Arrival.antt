-- ===== src/Seeq/Arrival.antt =====
-- The frames that a poll of the tap adds to those that wait.
use interp_mips.Prelude.{
  ℕ, ◌≡◌, refl, sym, ap, ◌∙◌, Bool, true, false, if◌then◌else◌, List, [], ◌∷◌,
}
use mathlib.Core.List.{◌++◌, append-nil, append_assoc}
use interp_mips.Seeq.{SgiSeeq, poll_loop, poll, accepts, stage, address_filter}
use interp_mips.Seeq.Stream.{Guest, staged, pending, flow}

-- A poll adds the frames that the filter accepts, as they stood in their order.
abbrev pub accepted : SgiSeeq → List (List ℕ) → List (List ℕ)
accepted c [] = []
accepted c (f ∷ fs) = if accepts c f then f ∷ accepted c fs else accepted c fs

pub staged-append : (fs gs : List (List ℕ)) → staged (fs ++ gs) ≡ staged fs ++ staged gs
staged-append [] gs = refl
staged-append (f ∷ fs) gs = ap (λ u. stage f ∷ u) (staged-append fs gs)

-- What a frame passes does not depend on the frames that wait.
accepted-queue :
    (fs q : List (List ℕ)) (c : SgiSeeq) → accepted (record c { rx_queue = q }) fs ≡ accepted c fs
unfolding address_filter
accepted-queue [] q c = refl
accepted-queue (f ∷ fs) q c = ap (λ u. if accepts c f then f ∷ u else u) (accepted-queue fs q c)

by_filter :
    (t : Bool) (f : List ℕ) (fs : List (List ℕ)) (c : SgiSeeq)
    → ((d : SgiSeeq) → poll_loop fs d ≡ record d { rx_queue = d.rx_queue ++ accepted d fs })
    → poll_loop fs (if t then record c { rx_queue = c.rx_queue ++ (f ∷ []) } else c)
      ≡ record c { rx_queue = c.rx_queue ++ (if t then f ∷ accepted c fs else accepted c fs) }
by_filter true f fs c ih =
    ih (record c { rx_queue = c.rx_queue ++ (f ∷ []) })
    ∙ ap (λ u. record c { rx_queue = (c.rx_queue ++ (f ∷ [])) ++ u })
        (accepted-queue fs (c.rx_queue ++ (f ∷ [])) c)
    ∙ ap (λ q. record c { rx_queue = q }) (append_assoc c.rx_queue (f ∷ []) (accepted c fs))
by_filter false f fs c ih = ih c

poll_loop-queue :
    (fs : List (List ℕ)) (c : SgiSeeq)
    → poll_loop fs c ≡ record c { rx_queue = c.rx_queue ++ accepted c fs }
unfolding poll_loop
poll_loop-queue [] c = ap (λ q. record c { rx_queue = q }) (sym (append-nil c.rx_queue))
poll_loop-queue (f ∷ fs) c = by_filter (accepts c f) f fs c (poll_loop-queue fs)

-- The frames that arrive at a controller, if it has a tap.
abbrev pub arrived_at : SgiSeeq → List (List ℕ) → List (List ℕ)
arrived_at c fs = if c.tap_up then accepted c fs else []

by_tap :
    (t : Bool) (fs : List (List ℕ)) (c : SgiSeeq)
    → (if t then poll_loop fs c else c)
      ≡ record c { rx_queue = c.rx_queue ++ (if t then accepted c fs else []) }
by_tap true fs c = poll_loop-queue fs c
by_tap false fs c = ap (λ q. record c { rx_queue = q }) (sym (append-nil c.rx_queue))

pub poll-queue :
    (fs : List (List ℕ)) (c : SgiSeeq)
    → poll fs c ≡ record c { rx_queue = c.rx_queue ++ arrived_at c fs }
unfolding poll
poll-queue fs c = by_tap c.tap_up fs c

pub flow-poll :
    (fs : List (List ℕ)) (w : Guest)
    → flow (record w { seeq = poll fs w.seeq }) ≡ flow w ++ staged (arrived_at w.seeq fs)
flow-poll fs w =
    let now = pending w.partial w.seeq.rx_rest in
    let came = arrived_at w.seeq fs in
    let waits = w.seeq.rx_queue in
    ap (λ d. flow (record w { seeq = d })) (poll-queue fs w.seeq)
    ∙ ap (λ u. w.frames ++ (now ++ u)) (staged-append waits came)
    ∙ ap (λ u. w.frames ++ u) (sym (append_assoc now (staged waits) (staged came)))
    ∙ sym (append_assoc w.frames (now ++ staged waits) (staged came))
