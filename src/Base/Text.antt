-- ===== src/Base/Text.antt =====
-- Rust strings as their UTF-8 bytes, and the `str` methods that the source calls.
use Prim.Native.Char.{code}
use Prim.Native.String.{String}
use Prim.Native.Nat.{ℕ, ◌+◌}
use mathlib.Core.Path.{◌≡◌, refl}
use mathlib.Core.Logic.{◌≢◌}
use mathlib.Core.Bool.{Bool, true, false, ◌&&◌}
use mathlib.Core.List.{List, [], ◌∷◌, map}
use native.Mathlib.Omega.{arith}
use rust_filen.Base.Tests.{ltb, leb, ◌==◌, if◌then◌else◌}
use rust_filen.Base.Lists.{length, length-map}

abbrev pub Bytes : Type 0
Bytes = List ℕ

-- The bytes of an ASCII literal.
abbrev pub codes : String → Bytes
codes String.[] = []
codes (String.◌∷◌ c s) = code c ∷ codes s

-- `==` on byte strings.
abbrev pub bytes_eq : Bytes → Bytes → Bool
bytes_eq [] [] = true
bytes_eq (a ∷ s) (b ∷ t) = a == b && bytes_eq s t
bytes_eq _ _ = false

pub bytes_eq_refl : (s : Bytes) → bytes_eq s s ≡ true
bytes_eq_refl [] = refl
bytes_eq_refl (a ∷ s) = ground (arith, bytes_eq_refl s)

pub bytes_eq_sound : (s t : Bytes) → bytes_eq s t ≡ true → s ≡ t
bytes_eq_sound [] [] h = refl
bytes_eq_sound [] (b ∷ t) h = cc
bytes_eq_sound (a ∷ s) [] h = cc
bytes_eq_sound (a ∷ s) (b ∷ t) h = ground (arith, bytes_eq_sound s t)

-- `u8::to_ascii_lowercase`
abbrev pub to_ascii_lowercase : ℕ → ℕ
to_ascii_lowercase c = if leb b'A' c && leb c b'Z' then c + 32 else c

-- `str::eq_ignore_ascii_case`
unfoldable pub eq_ignore_ascii_case : Bytes → Bytes → Bool
eq_ignore_ascii_case s t = bytes_eq (map to_ascii_lowercase s) (map to_ascii_lowercase t)

bytes_eq-length : (s t : Bytes) → bytes_eq s t ≡ true → length s ≡ length t
bytes_eq-length [] [] h = refl
bytes_eq-length [] (b ∷ t) h = cc
bytes_eq-length (a ∷ s) [] h = cc
bytes_eq-length (a ∷ s) (b ∷ t) h = ground (arith, bytes_eq-length s t)

pub eq_ignore_ascii_case-length :
    (s t : Bytes) → length s ≢ length t → eq_ignore_ascii_case s t ≡ false
unfolding eq_ignore_ascii_case
eq_ignore_ascii_case-length s t h = ground (
  arith,
  bytes_eq-length (map to_ascii_lowercase s) (map to_ascii_lowercase t),
  length-map to_ascii_lowercase s,
  length-map to_ascii_lowercase t,
)

-- Whether a byte continues a UTF-8 character, so that no character starts at it.
abbrev pub is_continuation : ℕ → Bool
is_continuation c = leb 128 c && ltb c 192
