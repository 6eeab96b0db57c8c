-- ===== src/MapReduce/Order.antt =====
-- main/mrsequential.go: the order of keys, Go's `<` on strings.
use Prim.Native.Char.{code}
use Prim.Native.String.{String, [] as empty, ◌∷◌ as char_cons}
use text.Mathlib.TextEquality.{Char-path}
use mit.Prelude.{◌≡◌, refl, ap₂, Bool, true, false, arith, ltb, ◌==◌, ◌||◌, ◌&&◌}

-- `s < t`: by the numbers of the characters, which is the order of the bytes of their UTF-8.
unfoldable pub less : String → String → Bool
less empty empty = false
less empty (char_cons d t) = true
less (char_cons c s) empty = false
less (char_cons c s) (char_cons d t) = ltb (code c) (code d) || ((code c == code d) && less s t)

pub less_irrefl : (s : String) → less s s ≡ false
unfolding less
less_irrefl empty = refl
less_irrefl (char_cons c s) = grind (arith, less_irrefl s)

pub less_trans : (s t u : String) → less s t ≡ true → less t u ≡ true → less s u ≡ true
unfolding less
less_trans empty empty u h k = cc
less_trans empty (char_cons d t) empty h k = cc
less_trans empty (char_cons d t) (char_cons e u) h k = refl
less_trans (char_cons c s) empty u h k = cc
less_trans (char_cons c s) (char_cons d t) empty h k = cc
less_trans (char_cons c s) (char_cons d t) (char_cons e u) h k = ground (arith, less_trans s t u)

-- Of two keys one is less, or they are the same.
pub less_total : (s t : String) → less s t ≡ false → less t s ≡ false → s ≡ t
unfolding less
less_total empty empty h k = refl
less_total empty (char_cons d t) h k = cc
less_total (char_cons c s) empty h k = cc
less_total (char_cons c s) (char_cons d t) h k =
    let same : code c ≡ code d = ground arith in
    ap₂ char_cons (Char-path c d same)
      (less_total s t (ground (arith, same)) (ground (arith, same)))
