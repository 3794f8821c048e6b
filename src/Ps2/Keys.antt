-- ===== src/Ps2/Keys.antt =====
-- The scan codes of sgi_ps2.cc: the table `g_keys`, `key`, and `type_text`. A name is its bytes.
use Prim.Native.Char.{code}
use Prim.Native.String.{String}
use interp_mips.Prelude.{
  ℕ, ◌+◌, ◌-◌, Bool, true, false, not, ◌&&◌, ◌||◌, if◌then◌else◌, ◌==◌, leb, is_set, set_bit, List,
  [], ◌∷◌, Option, none, some,
}
use mathlib.Core.List.{◌++◌}
use interp_mips.Ps2.Controller.{SgiPs2}

-- `key_code_t`: the make codes in the three sets, and whether 0xe0 goes first in sets 1 and 2.
pub record KeyCode : Type 0 where
  pub name : List ℕ
  pub s1 : ℕ
  pub s2 : ℕ
  pub s3 : ℕ
  pub ext : Bool

abbrev pub codes : String → List ℕ
codes String.[] = []
codes (String.◌∷◌ c s) = code c ∷ codes s

abbrev pub row : String → ℕ → ℕ → ℕ → Bool → KeyCode
row n a b c e = record { name = codes n; s1 = a; s2 = b; s3 = c; ext = e }

-- `g_keys`.
unfoldable pub g_keys : List KeyCode
g_keys =
    row "a" 0x1e 0x1c 0x1c false
    ∷ row "b" 0x30 0x32 0x32 false
    ∷ row "c" 0x2e 0x21 0x21 false
    ∷ row "d" 0x20 0x23 0x23 false
    ∷ row "e" 0x12 0x24 0x24 false
    ∷ row "f" 0x21 0x2b 0x2b false
    ∷ row "g" 0x22 0x34 0x34 false
    ∷ row "h" 0x23 0x33 0x33 false
    ∷ row "i" 0x17 0x43 0x43 false
    ∷ row "j" 0x24 0x3b 0x3b false
    ∷ row "k" 0x25 0x42 0x42 false
    ∷ row "l" 0x26 0x4b 0x4b false
    ∷ row "m" 0x32 0x3a 0x3a false
    ∷ row "n" 0x31 0x31 0x31 false
    ∷ row "o" 0x18 0x44 0x44 false
    ∷ row "p" 0x19 0x4d 0x4d false
    ∷ row "q" 0x10 0x15 0x15 false
    ∷ row "r" 0x13 0x2d 0x2d false
    ∷ row "s" 0x1f 0x1b 0x1b false
    ∷ row "t" 0x14 0x2c 0x2c false
    ∷ row "u" 0x16 0x3c 0x3c false
    ∷ row "v" 0x2f 0x2a 0x2a false
    ∷ row "w" 0x11 0x1d 0x1d false
    ∷ row "x" 0x2d 0x22 0x22 false
    ∷ row "y" 0x15 0x35 0x35 false
    ∷ row "z" 0x2c 0x1a 0x1a false
    ∷ row "1" 0x02 0x16 0x16 false
    ∷ row "2" 0x03 0x1e 0x1e false
    ∷ row "3" 0x04 0x26 0x26 false
    ∷ row "4" 0x05 0x25 0x25 false
    ∷ row "5" 0x06 0x2e 0x2e false
    ∷ row "6" 0x07 0x36 0x36 false
    ∷ row "7" 0x08 0x3d 0x3d false
    ∷ row "8" 0x09 0x3e 0x3e false
    ∷ row "9" 0x0a 0x46 0x46 false
    ∷ row "0" 0x0b 0x45 0x45 false
    ∷ row "-" 0x0c 0x4e 0x4e false
    ∷ row "=" 0x0d 0x55 0x55 false
    ∷ row "[" 0x1a 0x54 0x54 false
    ∷ row "]" 0x1b 0x5b 0x5b false
    ∷ row "\\" 0x2b 0x5d 0x5c false
    ∷ row ";" 0x27 0x4c 0x4c false
    ∷ row "'" 0x28 0x52 0x52 false
    ∷ row "`" 0x29 0x0e 0x0e false
    ∷ row "," 0x33 0x41 0x41 false
    ∷ row "." 0x34 0x49 0x49 false
    ∷ row "/" 0x35 0x4a 0x4a false
    ∷ row "esc" 0x01 0x76 0x08 false
    ∷ row "backspace" 0x0e 0x66 0x66 false
    ∷ row "tab" 0x0f 0x0d 0x0d false
    ∷ row "enter" 0x1c 0x5a 0x5a false
    ∷ row "space" 0x39 0x29 0x29 false
    ∷ row "capslock" 0x3a 0x58 0x14 false
    ∷ row "shift" 0x2a 0x12 0x12 false
    ∷ row "rshift" 0x36 0x59 0x59 false
    ∷ row "ctrl" 0x1d 0x14 0x11 false
    ∷ row "alt" 0x38 0x11 0x19 false
    ∷ row "f1" 0x3b 0x05 0x07 false
    ∷ row "f2" 0x3c 0x06 0x0f false
    ∷ row "f3" 0x3d 0x04 0x17 false
    ∷ row "f4" 0x3e 0x0c 0x1f false
    ∷ row "f5" 0x3f 0x03 0x27 false
    ∷ row "f6" 0x40 0x0b 0x2f false
    ∷ row "f7" 0x41 0x83 0x37 false
    ∷ row "f8" 0x42 0x0a 0x3f false
    ∷ row "f9" 0x43 0x01 0x47 false
    ∷ row "f10" 0x44 0x09 0x4f false
    ∷ row "f11" 0x57 0x78 0x56 false
    ∷ row "f12" 0x58 0x07 0x5e false
    ∷ row "up" 0x48 0x75 0x63 true
    ∷ row "down" 0x50 0x72 0x60 true
    ∷ row "left" 0x4b 0x6b 0x61 true
    ∷ row "right" 0x4d 0x74 0x6a true
    ∷ row "home" 0x47 0x6c 0x6e true
    ∷ row "end" 0x4f 0x69 0x65 true
    ∷ row "pgup" 0x49 0x7d 0x6f true
    ∷ row "pgdn" 0x51 0x7a 0x6d true
    ∷ row "insert" 0x52 0x70 0x67 true
    ∷ row "delete" 0x53 0x71 0x64 true
    ∷ []

abbrev pub same_bytes : List ℕ → List ℕ → Bool
same_bytes [] [] = true
same_bytes (x ∷ xs) (y ∷ ys) = x == y && same_bytes xs ys
same_bytes _ _ = false

unfoldable pub find_in : List ℕ → List KeyCode → Option KeyCode
find_in n [] = none
find_in n (k ∷ ks) = let rest = find_in n ks in if same_bytes n k.name then some k else rest

unfoldable pub find_key : List ℕ → Option KeyCode
unfolding find_in g_keys
find_key n = find_in n g_keys

abbrev pub when : Bool → List ℕ → List ℕ
when b bs = if b then bs else []

-- The bytes of a key, with the scan code set and the translation by the controller.
unfoldable pub key_bytes : Bool → ℕ → KeyCode → Bool → List ℕ
key_bytes translate scan_set k down =
    let xlate = translate && (scan_set == 2) in
    if (scan_set == 3) && not xlate
    then when (not down) (0xf0 ∷ []) ++ (k.s3 ∷ [])
    else if xlate || (scan_set == 1)
    then when k.ext (0xe0 ∷ []) ++ ((if down then k.s1 else set_bit k.s1 7) ∷ [])
    else when k.ext (0xe0 ∷ []) ++ (when (not down) (0xf0 ∷ []) ++ (k.s2 ∷ []))

abbrev pub push_key : Option KeyCode → Bool → SgiPs2 → Bool × SgiPs2
push_key none down p = (false, p)
push_key (some k) down p = (
  true,
  record p { host_kbd = p.host_kbd ++ (key_bytes (is_set p.ccb 6) p.scan_set k down ∷ []) },
)

unfoldable pub key : List ℕ → Bool → SgiPs2 → Bool × SgiPs2
unfolding find_key key_bytes
key name down p = push_key (find_key name) down p

-- The keys that give these characters with shift, by `strchr`, which also finds the final zero.
unfoldable pub unshifted : ℕ → List ℕ → List ℕ → Option ℕ
unshifted c (x ∷ xs) (y ∷ ys) = let rest = unshifted c xs ys in if c == x then some y else rest
unshifted c _ _ = if c == 0 then some 0 else none

abbrev pub shifted_from : List ℕ
shifted_from = codes "~!@#$%^&*()_+{}|:\"<>?"

abbrev pub shifted_to : List ℕ
shifted_to = codes "`1234567890-=[]\\;',./"

abbrev pub by_shift : ℕ → Option ℕ → List ℕ × Bool
by_shift c (some b) = (b ∷ [], true)
by_shift c none = (c ∷ [], false)

-- The key of a character, and whether shift goes with it.
unfoldable pub char_key : ℕ → List ℕ × Bool
unfolding unshifted
char_key c =
    if leb b'A' c && leb c b'Z'
    then ((c - b'A' + b'a') ∷ [], true)
    else if c == b' '
    then (codes "space", false)
    else by_shift c (unshifted c shifted_from shifted_to)

abbrev pub shift_if : Bool → Bool → SgiPs2 → SgiPs2
shift_if shift down p = if shift then (key (codes "shift") down p).1 else p

unfoldable pub type_char : ℕ → SgiPs2 → SgiPs2
unfolding char_key key
type_char c p =
    let (name, shift) = char_key c in
    shift_if shift false (key name false ((key name true (shift_if shift true p)).1)).1

unfoldable pub type_text : List ℕ → SgiPs2 → SgiPs2
unfolding type_char
type_text [] p = p
type_text (c ∷ t) p = type_text t (type_char c p)
