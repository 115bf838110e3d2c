-- ===== src/Acl/Matching.antt =====
-- Facts on the match of a field.
use Prim.Native.Nat.{bit_and}
use dpdk_starter.Base.{
  ℕ, zero, suc, ◌+◌, ◌≤◌, ◌<◌, ◌≡◌, refl, List, [], ◌∷◌, ◌==◌, ==_iff, if◌then◌else◌, arith,
}

module _ (f g : ℕ → ℕ) where
  -- Where the two functions differ among the `n` numbers from `i` on.
  differing : ℕ → ℕ → List ℕ
  differing zero i = []
  differing (suc n) i = let rest = differing n (suc i) in if f i == g i then rest else i ∷ rest

  agree_within : (n i : ℕ) → differing n i ≡ [] → (x : ℕ) → i ≤ x → x < i + n → f x ≡ g x
  unfolding differing
  agree_within zero i h x lo hi = absurd (omega arith)
  agree_within (suc n) i h x lo hi =
      ground (arith, agree_within n (suc i) (ground arith) x, ==_iff (f i) (g i))

-- A mask of eight ones keeps a whole byte.
pub bit_and-full : (x : ℕ) → x < 256 → bit_and x 0xff ≡ x
unfolding differing
bit_and-full x h = agree_within (λ b. bit_and b 0xff) (λ b. b) 256 0 refl x (omega arith) h

-- A mask of zeros keeps nothing of a byte.
pub bit_and-none : (x : ℕ) → x < 256 → bit_and x 0 ≡ 0
unfolding differing
bit_and-none x h = agree_within (λ b. bit_and b 0) (λ b. 0) 256 0 refl x (omega arith) h
