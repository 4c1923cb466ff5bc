-- ===== src/Network/Bridge/Rules/InForce.antt =====
-- What the set-up of the bridge leaves in the tables of the firewall.
use docker_analysis.Base.{
  ℕ, suc, ◌-◌, ◌≤◌, ◌<◌, ◌≡◌, Bool, true, false, List, ◌∷◌, if◌then◌else◌, Str, codes, nat_beq,
  arith, refl, Bool-cases, inl, inr, subst, ap, ◌∙◌,
}
use docker_analysis.Network.Iptables.{Answer, Iptables, call_args, raw, rule_exists}
use docker_analysis.Network.Bridge.Rules.{
  nat_args, accept_args, drop_args, outgoing_args, existing_args, ensure, and_then, set_between,
  setup_iptables,
}

-- The rules that the set-up deals with.
pub data Rule : Type 0 where
  translation acceptance refusal outgoing existing : Rule

abbrev pub rule_beq : Rule → Rule → Bool
rule_beq translation translation = true
rule_beq acceptance acceptance = true
rule_beq refusal refusal = true
rule_beq outgoing outgoing = true
rule_beq existing existing = true
rule_beq k j = false

-- The rule between containers, and the contrary one.
abbrev pub wanted : Bool → Rule
wanted icc = if icc then acceptance else refusal

abbrev pub contrary : Bool → Rule
contrary icc = if icc then refusal else acceptance

abbrev pub rule_args : Str → Str → Rule → List Str
rule_args addr bridge translation = nat_args addr bridge
rule_args addr bridge acceptance = accept_args bridge
rule_args addr bridge refusal = drop_args bridge
rule_args addr bridge outgoing = outgoing_args bridge
rule_args addr bridge existing = existing_args bridge

-- The four rules are there, and the contrary one is not; `count` tells how often a rule is there.
abbrev pub InForce : {W : Type 0} → (Rule → W → ℕ) → Bool → W → Type 0
InForce count icc w =
    (0 < count translation w)
    × (0 < count (wanted icc) w)
    × (0 < count outgoing w)
    × (0 < count existing w)
    × (count (contrary icc) w ≡ 0)

module _ {W : Type 0} (ip : Iptables W) (addr bridge : Str) where
  -- The state and the answer after a command on a rule.
  abbrev pub does : Str → Rule → W → Answer × W
  does action k w = ip.command (call_args ip (action ∷ rule_args addr bridge k)) w

  -- What the command does, by `count`, which tells how often a rule is in its chain: "-C" fails
  -- exactly where the rule is not there, "-I" without an error adds it once, "-D" takes it out once
  -- where it is there, and no command changes another of the rules.
  pub record Behaves (count : Rule → W → ℕ) : Type 0 where
    pub installed : ip.installed ≡ true
    pub checked : (k : Rule) (w : W) → (does (codes "-C") k w).0.error ≡ nat_beq (count k w) 0
    pub check_keeps : (k j : Rule) (w : W) → count j (does (codes "-C") k w).1 ≡ count j w
    pub inserted :
        (k j : Rule) (w : W)
        → (does (codes "-I") k w).0.error ≡ false
        → count j (does (codes "-I") k w).1 ≡ (if rule_beq k j then suc (count j w) else count j w)
    pub deleted :
        (k j : Rule) (w : W)
        → count j (does (codes "-D") k w).1 ≡ (if rule_beq k j then count j w - 1 else count j w)

  module _ (count : Rule → W → ℕ) (b : Behaves count) where
    raw-error :
        (args : List Str) (w : W)
        → (raw ip args w).0.error ≡ (ip.command (call_args ip args) w).0.error
    unfolding raw
    raw-error args w = ground (arith, b.installed)

    raw-state : (args : List Str) (w : W) → (raw ip args w).1 ≡ (ip.command (call_args ip args) w).1
    unfolding raw
    raw-state args w = ground (arith, b.installed)

    -- A rule is there, and the others as often as before.
    abbrev Ensured : Rule → W → W → Type 0
    Ensured k w w' = (0 < count k w') × ((j : Rule) → rule_beq k j ≡ false → count j w' ≡ count j w)

    rule_beq_refl : (k : Rule) → rule_beq k k ≡ true
    rule_beq_refl translation = refl
    rule_beq_refl acceptance = refl
    rule_beq_refl refusal = refl
    rule_beq_refl outgoing = refl
    rule_beq_refl existing = refl

    ensure-Ensured :
        (k : Rule) (w w' : W) → ensure ip (rule_args addr bridge k) w ≡ (true, w') → Ensured k w w'
    unfolding ensure rule_exists
    ensure-Ensured k w w' h =
        let args = rule_args addr bridge k in
        let w₁ = (raw ip (codes "-C" ∷ args) w).1 in
        let kept : (j : Rule) → count j w₁ ≡ count j w =
          λ j. ap (count j) (raw-state (codes "-C" ∷ args) w) ∙ b.check_keeps k j w in
        let tested = raw-error (codes "-C" ∷ args) w ∙ b.checked k w in
        elim (Bool-cases (raw ip (codes "-C" ∷ args) w).0.error) [
          | inr there ↦
              let same : w₁ ≡ w' = ground (arith, there) in
              (
                subst (λ v. 0 < count k v) same (ground (arith, there, tested, kept k)),
                λ j other. subst (λ v. count j v ≡ count j w) same (kept j),
              )
          | inl missing ↦
              let w₂ = (raw ip (codes "-I" ∷ args) w₁).1 in
              let fine : (raw ip (codes "-I" ∷ args) w₁).0.error ≡ false =
                ground (arith, missing) in
              let same : w₂ ≡ w' = ground (arith, missing) in
              let added : (j : Rule)
                  → count j w₂ ≡ (if rule_beq k j then suc (count j w₁) else count j w₁) =
                λ j.
                  ap (count j) (raw-state (codes "-I" ∷ args) w₁)
                  ∙ b.inserted k j w₁ (raw-error-back k w₁ fine) in
              (
                subst (λ v. 0 < count k v) same (ground (arith, added k, rule_beq_refl k)),
                λ j other.
                    subst (λ v. count j v ≡ count j w) same
                      (ground (arith, added j, other, kept j)),
              )
        ]
      where
        raw-error-back :
            (k : Rule) (w : W)
            → (raw ip (codes "-I" ∷ rule_args addr bridge k) w).0.error ≡ false
            → (does (codes "-I") k w).0.error ≡ false
        raw-error-back k w e = ground (arith, raw-error (codes "-I" ∷ rule_args addr bridge k) w)

    -- A rule is deleted, and another one set.
    replaced :
        (k j : Rule) (w w' : W)
        → rule_beq k j ≡ false
        → ensure ip (rule_args addr bridge k) (raw ip (codes "-D" ∷ rule_args addr bridge j) w).1
          ≡ (true, w')
        → (0 < count k w')
          × ((i : Rule)
              → rule_beq k i ≡ false
              → count i w' ≡ (if rule_beq j i then count i w - 1 else count i w))
    replaced k j w w' other h =
        let w₁ = (raw ip (codes "-D" ∷ rule_args addr bridge j) w).1 in
        let (there, kept) = ensure-Ensured k w₁ w' h in
        (
          there,
          λ i differs.
              kept i differs
              ∙ ap (count i) (raw-state (codes "-D" ∷ rule_args addr bridge j) w)
              ∙ b.deleted j i w,
        )

    abbrev Replaced : Bool → W → W → Type 0
    Replaced icc w w' =
        (0 < count (wanted icc) w')
        × ((i : Rule)
            → rule_beq (wanted icc) i ≡ false
            → count i w' ≡ (if rule_beq (contrary icc) i then count i w - 1 else count i w))

    set_between-Replaced :
        (icc : Bool) (w w' : W) → set_between ip bridge icc w ≡ (true, w') → Replaced icc w w'
    unfolding set_between
    set_between-Replaced true w w' h = replaced acceptance refusal w w' refl h
    set_between-Replaced false w w' h = replaced refusal acceptance w w' refl h

    and_then-true :
        (f : W → Bool × W) (r : Bool × W) (w' : W)
        → and_then ip f r ≡ (true, w')
        → (w : W) × (r ≡ (true, w)) × (f w ≡ (true, w'))
    unfolding and_then
    and_then-true f (true, w) w' h = (w, refl, h)
    and_then-true f (false, w) w' h = absurd (ground arith)

    all_steps :
        (icc : Bool) (w w₁ w₂ w₃ w' : W)
        → count (contrary icc) w ≤ 1
        → Ensured translation w w₁
        → Replaced icc w₁ w₂
        → Ensured outgoing w₂ w₃
        → Ensured existing w₃ w'
        → InForce count icc w'
    all_steps true w w₁ w₂ w₃ w' once (n₁, k₁) (n₂, k₂) (n₃, k₃) (n₄, k₄) = (
      ground (arith, k₂ translation, k₃ translation, k₄ translation),
      ground (arith, k₃ acceptance, k₄ acceptance),
      ground (arith, k₄ outgoing),
      n₄,
      ground (arith, k₁ refusal, k₂ refusal, k₃ refusal, k₄ refusal),
    )
    all_steps false w w₁ w₂ w₃ w' once (n₁, k₁) (n₂, k₂) (n₃, k₃) (n₄, k₄) = (
      ground (arith, k₂ translation, k₃ translation, k₄ translation),
      ground (arith, k₃ refusal, k₄ refusal),
      ground (arith, k₄ outgoing),
      n₄,
      ground (arith, k₁ acceptance, k₂ acceptance, k₃ acceptance, k₄ acceptance),
    )

    -- Where iptables is installed, "-C" fails exactly for a rule that is not there, "-I" without an
    -- error adds it once, "-D" takes it out once where it is there, and no command changes another of
    -- the five rules; where the rule between containers that is contrary to `icc` was in its chain at
    -- most once, and the set-up reports no error: the translation of
    -- addresses, the rule between containers that `icc` asks for, and the rules for packets that go
    -- out and for those of known connections are all in their chains afterwards, and the contrary
    -- rule is not.
    pub setup_iptables-InForce :
        (icc : Bool) (w w' : W)
        → count (contrary icc) w ≤ 1
        → setup_iptables ip addr bridge icc w ≡ (true, w')
        → InForce count icc w'
    unfolding setup_iptables
    setup_iptables-InForce icc w w' once h =
        let (w₃, h₃, e₃) = and_then-true (ensure ip (existing_args bridge)) _ w' h in
        let (w₂, h₂, e₂) = and_then-true (ensure ip (outgoing_args bridge)) _ w₃ h₃ in
        let (w₁, h₁, e₁) = and_then-true (set_between ip bridge icc) _ w₂ h₂ in
        all_steps icc w w₁ w₂ w₃ w' once (ensure-Ensured translation w w₁ h₁)
          (set_between-Replaced icc w₁ w₂ e₁) (ensure-Ensured outgoing w₂ w₃ e₂)
          (ensure-Ensured existing w₃ w' e₃)
