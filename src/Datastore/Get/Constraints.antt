-- ===== src/Datastore/Get/Constraints.antt =====
-- The constraints of buildGetQuery: what each of them asks of a row of `vuln`, by the columns of the
-- query and the fields of the index record that they are compared with.
use mathlib.Core.Path.{subst}
use cvetool.Prelude.{
  Bool-cases, ℕ, ◌≡◌, refl, ◌≢◌, ◌↔◌, ◌⊎◌, inl, inr, Bool, true, false, not, none, some, [], arith,
}
use cvetool.Text.{Str, str_eq, str_eq_iff}
use cvetool.Datastore.Tables.{VulnRow}
use cvetool.Datastore.Get.{
  IndexRecord, MatchConstraint, package_module, distribution_did, distribution_name,
  distribution_version_id, distribution_version, distribution_version_code_name,
  distribution_pretty_name, distribution_cpe, distribution_arch, repository_name, repository_key,
  has_fixed_in_version, other, condition,
}

-- The row agrees with the record in what the constraint names; a constraint without a name asks for
-- what no row has.
abbrev pub Meets : IndexRecord → VulnRow → MatchConstraint → Type 0
Meets r v package_module = v.pkg.module_name ≡ r.pkg.module_name
Meets r v distribution_did = v.dist.did ≡ r.dist.did
Meets r v distribution_name = v.dist.name ≡ r.dist.name
Meets r v distribution_version_id = v.dist.version_id ≡ r.dist.version_id
Meets r v distribution_version = v.dist.version ≡ r.dist.version
Meets r v distribution_version_code_name = v.dist.version_code_name ≡ r.dist.version_code_name
Meets r v distribution_pretty_name = v.dist.pretty_name ≡ r.dist.pretty_name
Meets r v distribution_cpe = v.dist.cpe ≡ r.dist.cpe
Meets r v distribution_arch = v.dist.arch ≡ r.dist.arch
Meets r v repository_name = v.repo.name ≡ r.repo.name
Meets r v repository_key = v.repo.key ≡ r.repo.key
Meets r v has_fixed_in_version = v.fixed_in_version ≢ []
Meets r v (other n) = ⊥

not_iff : (s : Str) → (not (str_eq s []) ≡ true) ↔ (s ≢ [])
not_iff s = (λ h e. ground (arith, str_eq_iff s []), λ n. differs (Bool-cases (str_eq s [])) n)
  where
    differs : (str_eq s [] ≡ true) ⊎ (str_eq s [] ≡ false) → s ≢ [] → not (str_eq s []) ≡ true
    differs (inl e) n = absurd (n ((str_eq_iff s []).0 e))
    differs (inr e) n = rw e

-- The condition that the `switch` appends holds of a row exactly where it meets the constraint.
pub condition-Meets :
    (r : IndexRecord) (v : VulnRow) (m : MatchConstraint) (ex : VulnRow → Bool)
    → condition m r ≡ some ex
    → (ex v ≡ true) ↔ Meets r v m
unfolding condition
condition-Meets r v m ex e = of_constraint m ex e
  where
    via :
        {P : Type 0} (f g : VulnRow → Bool) → some f ≡ some g → (f v ≡ true) ↔ P → (g v ≡ true) ↔ P
    via {P} f g e h = subst (λ o. (elim o [ none ↦ f v | some k ↦ k v ] ≡ true) ↔ P) e h

    of_constraint :
        (m : MatchConstraint) (ex : VulnRow → Bool)
        → condition m r ≡ some ex
        → (ex v ≡ true) ↔ Meets r v m
    of_constraint package_module ex e = via _ ex e (str_eq_iff _ _)
    of_constraint distribution_did ex e = via _ ex e (str_eq_iff _ _)
    of_constraint distribution_name ex e = via _ ex e (str_eq_iff _ _)
    of_constraint distribution_version_id ex e = via _ ex e (str_eq_iff _ _)
    of_constraint distribution_version ex e = via _ ex e (str_eq_iff _ _)
    of_constraint distribution_version_code_name ex e = via _ ex e (str_eq_iff _ _)
    of_constraint distribution_pretty_name ex e = via _ ex e (str_eq_iff _ _)
    of_constraint distribution_cpe ex e = via _ ex e (str_eq_iff _ _)
    of_constraint distribution_arch ex e = via _ ex e (str_eq_iff _ _)
    of_constraint repository_name ex e = via _ ex e (str_eq_iff _ _)
    of_constraint repository_key ex e = via _ ex e (str_eq_iff _ _)
    of_constraint has_fixed_in_version ex e = via _ ex e (not_iff v.fixed_in_version)
    of_constraint (other n) ex e = cc e

-- Every constraint with a name has a condition.
pub condition-ne-none :
    (r : IndexRecord) (m : MatchConstraint) → ((n : ℕ) → m ≢ other n) → condition m r ≢ none
unfolding condition
condition-ne-none r (other n) h e = h n refl
condition-ne-none r package_module h e = cc e
condition-ne-none r distribution_did h e = cc e
condition-ne-none r distribution_name h e = cc e
condition-ne-none r distribution_version_id h e = cc e
condition-ne-none r distribution_version h e = cc e
condition-ne-none r distribution_version_code_name h e = cc e
condition-ne-none r distribution_pretty_name h e = cc e
condition-ne-none r distribution_cpe h e = cc e
condition-ne-none r distribution_arch h e = cc e
condition-ne-none r repository_name h e = cc e
condition-ne-none r repository_key h e = cc e
condition-ne-none r has_fixed_in_version h e = cc e
