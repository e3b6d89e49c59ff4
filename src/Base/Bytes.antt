-- ===== src/Base/Bytes.antt =====
-- Bytes in memory. `none` is a fault: an access outside the array, or a loop that did not end.
use Prim.Native.Nat.{ℕ, zero, suc, ◌+◌, ◌*◌, ◌≤◌, ◌<◌}
use mathlib.Core.Path.{◌≡◌}
use mathlib.Core.List.{List, [], ◌∷◌, ◌++◌}
use mathlib.Core.Option.{Option, none, some}
use native.Mathlib.Omega.{arith}
use nvme_snsd.Base.Tests.{leb, ◌==◌, if◌then◌else◌}
use nvme_snsd.Base.Lists.{length, get_elem?, take, drop, length-append, length-take, length-drop}

infixl 5 ◌>>=◌
abbrev pub ◌>>=◌ {ℓ κ} : {A : Type ℓ} {B : Type κ} → Option A → (A → Option B) → Option B
none >>= f = none
some a >>= f = f a

-- `*(unsigned char *)(buf + pos)`.
abbrev pub byte_at : List ℕ → ℕ → Option ℕ
byte_at = get_elem?

-- The n bytes from `pos` on, the source of a `memcpy`.
unfoldable pub slice : List ℕ → ℕ → ℕ → Option (List ℕ)
slice buf pos n = if leb (pos + n) (length buf) then some (take n (drop pos buf)) else none

-- A `memcpy` of `bytes` to `pos`.
unfoldable pub poke : List ℕ → ℕ → List ℕ → Option (List ℕ)
poke buf pos bytes =
    if leb (pos + length bytes) (length buf)
    then some (take pos buf ++ (bytes ++ drop (pos + length bytes) buf))
    else none

-- `ntohs(*(unsigned short *)(buf + pos))`.
unfoldable pub be16_at : List ℕ → ℕ → Option ℕ
be16_at buf pos = do hi ← byte_at buf pos; lo ← byte_at buf (pos + 1); some (hi * 256 + lo)

-- The big-endian value of a list of bytes.
unfoldable pub be_value : ℕ → List ℕ → ℕ
be_value acc [] = acc
be_value acc (b ∷ bs) = be_value (acc * 256 + b) bs

-- The text in a zero-terminated buffer.
abbrev pub c_string : List ℕ → List ℕ
c_string [] = []
c_string (b ∷ bs) = let rest = c_string bs in if b == 0 then [] else b ∷ rest

-- The value of a computation that has no fault.
abbrev pub Holds {ℓ} : {A : Type ℓ} → (A → Type 0) → Option A → Type 0
Holds P none = ⊥
Holds P (some a) = P a

module _ {ℓ} {A : Type ℓ} where
  -- A computation followed by another.
  pub Holds->>= {κ} :
      {B : Type κ} (P : A → Type 0) (Q : B → Type 0) (m : Option A) (f : A → Option B)
      → Holds P m
      → ((a : A) → P a → Holds Q (f a))
      → Holds Q (m >>= f)
  Holds->>= P Q none f h k = absurd h
  Holds->>= P Q (some a) f h k = k a h

  pub byte_at-Holds :
      (buf : List A) (pos : ℕ) → pos < length buf → Holds (λ _. Unit {0}) (get_elem? buf pos)
  byte_at-Holds [] pos h = elim h [ ]
  byte_at-Holds (b ∷ buf) zero h = tt
  byte_at-Holds (b ∷ buf) (suc pos) h = byte_at-Holds buf pos (omega arith)

pub slice-Holds :
    (buf : List ℕ) (pos n : ℕ)
    → pos + n ≤ length buf
    → Holds (λ bytes. length bytes ≡ n) (slice buf pos n)
unfolding slice
slice-Holds buf pos n h = ground (arith, length-take n (drop pos buf), length-drop pos buf)

pub poke-Holds :
    (buf : List ℕ) (pos : ℕ) (bytes : List ℕ)
    → pos + length bytes ≤ length buf
    → Holds (λ new. length new ≡ length buf) (poke buf pos bytes)
unfolding poke
poke-Holds buf pos bytes h = ground (
  arith,
  length-append (take pos buf) (bytes ++ drop (pos + length bytes) buf),
  length-append bytes (drop (pos + length bytes) buf),
  length-take pos buf,
  length-drop (pos + length bytes) buf,
)

pub poke-none :
    (buf : List ℕ) (pos : ℕ) (bytes : List ℕ)
    → length buf < pos + length bytes
    → poke buf pos bytes ≡ none
unfolding poke
poke-none buf pos bytes h = ground arith

pub be16_at-Holds :
    (buf : List ℕ) (pos : ℕ) → pos + 1 < length buf → Holds (λ _. Unit {0}) (be16_at buf pos)
unfolding be16_at
be16_at-Holds buf pos h =
    Holds->>= (λ _. Unit {0}) (λ _. Unit {0}) (get_elem? buf pos) _
      (byte_at-Holds buf pos (omega arith))
      λ hi _.
        Holds->>= (λ _. Unit {0}) (λ _. Unit {0}) (get_elem? buf (pos + 1)) _
          (byte_at-Holds buf (pos + 1) h) λ lo _. tt
