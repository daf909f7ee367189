-- ===== src/Cache/Pages/Keys.antt =====
-- Whether two keys of pages are the same can be computed.
use task_management.Base.{
  ℕ, String, Bool, true, false, ◌≡◌, ◌≢◌, arith, ap, ◌==◌, str_eq, eq_iff, Bool-cases, ◌⊎◌, inl,
  inr,
}
use task_management.Cache.Pages.{PageKey}

nat_eq : (a b : ℕ) → (a == b) ≡ true → a ≡ b
nat_eq a b h = ground arith

differ : (a b : ℕ) → (a == b) ≡ false → a ≢ b
differ a b h = ground arith

no_text : (a b : String) → str_eq a b ≡ false → a ≢ b
no_text a b h e = clash (str_eq a b) h ((eq_iff a b).1 e)
  where
    clash : (b : Bool) → b ≡ false → b ≡ true → ⊥
    clash b p q = ground arith

pub same_key : (j k : PageKey) → (j ≡ k) ⊎ (j ≢ k)
same_key j k = elim (Bool-cases (j.team == k.team)) [
  | inr t ↦ inr λ e. differ j.team k.team t (ap (λ x. x.team) e)
  | inl t ↦ elim (Bool-cases (j.generation == k.generation)) [
    | inr g ↦ inr λ e. differ j.generation k.generation g (ap (λ x. x.generation) e)
    | inl g ↦ elim (Bool-cases (str_eq j.digest k.digest)) [
      | inr d ↦ inr λ e. no_text j.digest k.digest d (ap (λ x. x.digest) e)
      | inl d ↦ inl λ i. record {
        team = nat_eq j.team k.team t i;
        generation = nat_eq j.generation k.generation g i;
        digest = (eq_iff j.digest k.digest).0 d i;
      }
    ]
  ]
]
