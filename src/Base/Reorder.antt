-- ===== src/Base/Reorder.antt =====
-- `every`, `any` and `count` do not see the order of a list.
use mathlib.Core.Path.{◌≡◌, refl, ◌∙◌, ap}
use mathlib.Core.Bool.{Bool}
use mathlib.Core.List.{List, Permᴰ}
use native.Mathlib.Omega.{arith}
use webperf_selfhosted.Base.Lists.{every, any, count, length}

module _ {ℓ} {A : Type ℓ} where
  pub every-perm : (p : A → Bool) {xs ys : List A} → Permᴰ xs ys → every p xs ≡ every p ys
  every-perm p Permᴰ.nil = refl
  every-perm p (Permᴰ.cons e h) = ground (arith, every-perm p h, ap p e)
  every-perm p (Permᴰ.swap e f) = ground (arith, ap p e, ap p f)
  every-perm p (Permᴰ.trans h k) = every-perm p h ∙ every-perm p k

  pub any-perm : (p : A → Bool) {xs ys : List A} → Permᴰ xs ys → any p xs ≡ any p ys
  any-perm p Permᴰ.nil = refl
  any-perm p (Permᴰ.cons e h) = ground (arith, any-perm p h, ap p e)
  any-perm p (Permᴰ.swap e f) = ground (arith, ap p e, ap p f)
  any-perm p (Permᴰ.trans h k) = any-perm p h ∙ any-perm p k

  pub count-perm : (p : A → Bool) {xs ys : List A} → Permᴰ xs ys → count p xs ≡ count p ys
  count-perm p Permᴰ.nil = refl
  count-perm p (Permᴰ.cons e h) = ground (arith, count-perm p h, ap p e)
  count-perm p (Permᴰ.swap e f) = ground (arith, ap p e, ap p f)
  count-perm p (Permᴰ.trans h k) = count-perm p h ∙ count-perm p k

  pub length-perm : {xs ys : List A} → Permᴰ xs ys → length xs ≡ length ys
  length-perm Permᴰ.nil = refl
  length-perm (Permᴰ.cons e h) = omega (arith, length-perm h)
  length-perm (Permᴰ.swap e f) = refl
  length-perm (Permᴰ.trans h k) = length-perm h ∙ length-perm k
