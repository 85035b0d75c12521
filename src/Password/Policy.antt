-- ===== src/Password/Policy.antt =====
-- Which passwords are accepted (pkg/security/password.go).
use Prim.Native.String.{len}
use video_streaming_service.Common.{
  ℕ, ◌≤◌, ◌≡◌, ◌↔◌, Bool, true, false, not, ◌&&◌, ◌||◌, List, [], ◌∷◌, String, any, ok, arith,
}
use video_streaming_service.Common.Text.{codes}
use video_streaming_service.Password.{
  Classes, is_common, is_special, Seen, see, see_all, validate_password,
}

module _ (u : Classes) where
  -- The runes that set each flag: a rune counts for the first class that it is in.
  abbrev pub is_only_lower : ℕ → Bool
  is_only_lower c = not (u.is_upper c) && u.is_lower c

  abbrev pub is_only_number : ℕ → Bool
  is_only_number c = not (u.is_upper c) && (not (u.is_lower c) && u.is_number c)

  abbrev pub is_only_special : ℕ → Bool
  is_only_special c =
      not (u.is_upper c) && (not (u.is_lower c) && (not (u.is_number c) && is_special c))

  pub record Sees (before after : Seen) (cs : List ℕ) : Type 0 where
    pub upper : after.upper ≡ (before.upper || any u.is_upper cs)
    pub lower : after.lower ≡ (before.lower || any is_only_lower cs)
    pub number : after.number ≡ (before.number || any is_only_number cs)
    pub special : after.special ≡ (before.special || any is_only_special cs)

  see-Sees : (seen : Seen) (c : ℕ) → Sees seen (see u seen c) (c ∷ [])
  unfolding see
  see-Sees seen c = ground arith

  see_all-Sees : (seen : Seen) (cs : List ℕ) → Sees seen (see_all u seen cs) cs
  unfolding see_all
  see_all-Sees seen [] = ground arith
  see_all-Sees seen (c ∷ cs) = ground (arith, see-Sees seen c, see_all-Sees (see u seen c) cs)

  -- What the policy asks for.
  pub record IsStrong (password : String) : Type 0 where
    pub long : 8 ≤ len password
    pub short : len password ≤ 72
    pub uncommon : is_common password ≡ false
    pub upper : any u.is_upper (codes password) ≡ true
    pub lower : any is_only_lower (codes password) ≡ true
    pub number : any is_only_number (codes password) ≡ true
    pub special : any is_only_special (codes password) ≡ true

  -- A password is accepted exactly if it has 8 to 72 bytes, is not on the list of common ones, and
  -- has an upper-case letter, a lower-case letter, a number and a special character, each rune
  -- counted for the first of these classes that it is in.
  pub validate_password_iff :
      (password : String) → (validate_password u password ≡ ok tt) ↔ IsStrong password
  unfolding validate_password
  validate_password_iff password = ground (
    arith,
    see_all-Sees (record { upper = false; lower = false; number = false; special = false })
        (codes password),
  )
