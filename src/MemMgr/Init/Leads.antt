-- ===== src/MemMgr/Init/Leads.antt =====
-- The boot allocator that memory_manager_init_schema of coreinit/mem_mgr.c finds by the description it
-- is given.
use otos_coreinit.Base.{
  ◌≡◌, ◌≢◌, ◌⊎◌, refl, sym, ap, ◌∙◌, inl, inr, false, List, Option, none, some, arith, ◌==◌, not,
  ◌&&◌, Bool-cases,
}
use otos_coreinit.MemMgr.{Claim}
use otos_coreinit.MemMgr.Init.{
  BootAllocator, InitDescription, init_description_magic, boot_allocator_magic, claim, claim_region,
  claim_allocator,
}

-- The description that the loader handed over leads to this boot allocator.
pub record Leads (info : Option InitDescription) (a : BootAllocator) : Type 0 where
  pub d : InitDescription
  pub is : info ≡ some d
  pub magic : d.magic ≡ 0x494e495444455343
  pub at : d.coreinit_allocator ≡ some a
  pub a_magic : a.magic ≡ 0x424f4f54414c4f43
  pub based : a.region_base ≢ 0
  pub long : a.region_len ≢ 0

some_inj {ℓ} : {A : Type ℓ} {x y : A} → some x ≡ some y → x ≡ y
some_inj {A} {x} {y} e = ap (λ o. elim o [ none ↦ x | some z ↦ z ]) e

nowhere :
    (d : InitDescription) (a : BootAllocator) → d.coreinit_allocator ≡ none → Leads (some d) a → ⊥
nowhere d a at l =
    let same : some d ≡ some l.d = l.is in
    let here : none ≡ some a = sym at ∙ (ap (λ x. x.coreinit_allocator) (some_inj same) ∙ l.at) in
    cc

unsound :
    (d : InitDescription) (a b : BootAllocator)
    → d.coreinit_allocator ≡ some a
    → Leads (some d) b
    → (d.magic == init_description_magic
        && (a.magic == boot_allocator_magic
            && (not (a.region_base == 0) && not (a.region_len == 0))))
      ≡ false
    → ⊥
unsound d a b at l bad =
    let same : d ≡ l.d = some_inj l.is in
    let here : some a ≡ some b = sym at ∙ (ap (λ x. x.coreinit_allocator) same ∙ l.at) in
    let ab : a ≡ b = some_inj here in
    let m : d.magic ≡ 0x494e495444455343 = ap (λ x. x.magic) same ∙ l.magic in
    let n : a.magic ≡ 0x424f4f54414c4f43 = ap (λ x. x.magic) ab ∙ l.a_magic in
    let base : a.region_base ≡ b.region_base = ap (λ x. x.region_base) ab in
    let len : a.region_len ≡ b.region_len = ap (λ x. x.region_len) ab in
    ground (arith, bad, m, n, base, len, l.based, l.long)

-- Whether there is a region to claim.
led_by :
    (cs : List Claim) (d : InitDescription) (o : Option BootAllocator)
    → d.coreinit_allocator ≡ o
    → (((a : BootAllocator) → Leads (some d) a → ⊥) × (claim_region cs d.magic o ≡ cs))
      ⊎ ((a : BootAllocator) × Leads (some d) a
          × (claim_region cs d.magic o ≡ claim cs a.region_base a.region_len 1))
unfolding claim_region
led_by cs d none at = inl ((λ a l. nowhere d a at l), refl)
led_by cs d (some a) at =
    elim (Bool-cases (
      d.magic == init_description_magic
      && (a.magic == boot_allocator_magic
          && (not (a.region_base == 0) && not (a.region_len == 0))))) [
            | inr bad ↦ inl ((λ b l. unsound d a b at l bad), rw (bad, claim_region) refl)
            | inl ok ↦ inr (
              a,
              record {
                d = d;
                is = refl;
                magic = ground (arith, ok);
                at = at;
                a_magic = ground (arith, ok);
                based = ground (arith, ok);
                long = ground (arith, ok);
              },
              rw (ok, claim_region) refl,
            )
          ]

pub led :
    (cs : List Claim) (info : Option InitDescription)
    → (((a : BootAllocator) → Leads info a → ⊥) × (claim_allocator cs info ≡ cs))
      ⊎ ((a : BootAllocator) × Leads info a
          × (claim_allocator cs info ≡ claim cs a.region_base a.region_len 1))
unfolding claim_allocator claim_region
led cs none = inl ((λ a l. ground (arith, l.is)), refl)
led cs (some d) = led_by cs d d.coreinit_allocator refl
