-- ===== src/Datastore/Status/History.antt =====
-- The table of the updaters' status against the history of the recorded attempts.
use cvetool.Prelude.{
  if◌then◌else◌, Bool-cases, Option-cases, is_some, ℕ, ◌≡◌, refl, sym, ap, ◌∙◌, inl, inr, Bool,
  true, false, not, ◌&&◌, Option, none, some, List, [], ◌∷◌,
}
use cvetool.Text.{Str, str_eq, str_eq_iff, str_eq_refl}
use cvetool.Datastore.Status.{record_updater_status, StatusRow, Attempt, inserted, updated}

-- `SELECT * FROM updater_status WHERE updater_name = …`
abbrev pub status_of : List StatusRow → Str → Option StatusRow
status_of [] u = none
status_of (r ∷ rs) u = if str_eq r.updater_name u then some r else status_of rs u

-- The table after the attempts, of which the last one stands first.
abbrev pub after_attempts : List Attempt → List StatusRow
after_attempts [] = []
after_attempts (a ∷ older) = record_updater_status a (after_attempts older)

-- The updater's last attempt, the time of its last success, and the text of its last error.
abbrev pub last_attempt_of : List Attempt → Str → Option Attempt
last_attempt_of [] u = none
last_attempt_of (a ∷ older) u = if str_eq a.updater_name u then some a else last_attempt_of older u

abbrev pub last_success_of : List Attempt → Str → Option ℕ
last_success_of [] u = none
last_success_of (a ∷ older) u =
    if str_eq a.updater_name u && not (is_some a.updater_error)
    then some a.update_time
    else last_success_of older u

abbrev pub last_error_of : List Attempt → Str → Option Str
last_error_of [] u = none
last_error_of (a ∷ older) u =
    if str_eq a.updater_name u && is_some a.updater_error
    then a.updater_error
    else last_error_of older u

abbrev pub row_from : Str → Option ℕ → Option Str → Option Attempt → Option StatusRow
row_from u success error none = none
row_from u success error (some a) = some (record {
  updater_name = u;
  last_attempt = a.update_time;
  last_success = success;
  last_run_succeeded = not (is_some a.updater_error);
  last_attempt_fingerprint = a.fingerprint;
  last_error = error;
})

-- The row that the history gives an updater.
abbrev pub summary : List Attempt → Str → Option StatusRow
summary history u =
    row_from u (last_success_of history u) (last_error_of history u) (last_attempt_of history u)

-- What an attempt makes of a row that may be there.
abbrev upserted : Attempt → Option StatusRow → StatusRow
unfolding inserted updated
upserted a none = inserted a a.updater_error
upserted a (some r) = updated a a.updater_error r

name-inserted : (a : Attempt) (e : Option Str) → (inserted a e).updater_name ≡ a.updater_name
unfolding inserted
name-inserted a none = refl
name-inserted a (some e) = refl

name-updated :
    (a : Attempt) (e : Option Str) (r : StatusRow) → (updated a e r).updater_name ≡ r.updater_name
unfolding updated
name-updated a none r = refl
name-updated a (some e) r = refl

status_of-cons :
    (r : StatusRow) (rs : List StatusRow) (name u : Str)
    → r.updater_name ≡ name
    → status_of (r ∷ rs) u ≡ (if str_eq name u then some r else status_of rs u)
status_of-cons r rs name u e = ap (λ n. if str_eq n u then some r else status_of rs u) e

status_of-record :
    (a : Attempt) (rs : List StatusRow) (u : Str)
    → status_of (record_updater_status a rs) u ≡ (
        if str_eq a.updater_name u
        then some (upserted a (status_of rs a.updater_name))
        else status_of rs u)
unfolding record_updater_status
status_of-record a [] u =
    status_of-cons (inserted a a.updater_error) [] a.updater_name u
      (name-inserted a a.updater_error)
status_of-record a (r ∷ rs) u = elim (Bool-cases (str_eq r.updater_name a.updater_name)) [
  | inl e ↦
      let same : r.updater_name ≡ a.updater_name = (str_eq_iff r.updater_name a.updater_name).0 e in
      rw e (
        status_of-cons (updated a a.updater_error r) rs a.updater_name u
          (name-updated a a.updater_error r ∙ same)
        ∙ shadowed (str_eq a.updater_name u) (str_eq r.updater_name u)
            (some (updated a a.updater_error r)) (some r) (status_of rs u)
            (ap (λ n. str_eq n u) same))
  | inr e ↦
      rw (e, status_of-record a rs u)
        (apart (str_eq a.updater_name u) (str_eq r.updater_name u)
          (some (upserted a (status_of rs a.updater_name))) (some r) (status_of rs u)
          (λ p q. cc (
            e,
            (str_eq_iff r.updater_name a.updater_name).1
                ((str_eq_iff r.updater_name u).0 q ∙ sym ((str_eq_iff a.updater_name u).0 p)),
          )))
]
  where
    shadowed :
        (b c : Bool) (x y z : Option StatusRow)
        → c ≡ b
        → (if b then x else z) ≡ (if b then x else if c then y else z)
    shadowed true c x y z h = refl
    shadowed false true x y z h = cc (h)
    shadowed false false x y z h = refl

    apart :
        (b c : Bool) (x y z : Option StatusRow)
        → (b ≡ true → ¬ (c ≡ true))
        → (if c then y else if b then x else z) ≡ (if b then x else if c then y else z)
    apart true true x y z h = absurd (h refl refl)
    apart true false x y z h = refl
    apart false c x y z h = refl

-- An updater without an attempt has neither a success nor an error.
none_of :
    (h : List Attempt) (u : Str)
    → last_attempt_of h u ≡ none
    → (last_success_of h u ≡ none) × (last_error_of h u ≡ none)
none_of [] u e = (refl, refl)
none_of (a ∷ older) u e = elim (Bool-cases (str_eq a.updater_name u)) [
  | inl q ↦ cc (rw q at e)
  | inr q ↦ rw q (none_of older u (rw q at e))
]

-- The row after one more attempt of the updater.
upserted-summary :
    (a : Attempt) (older : List Attempt)
    → some (upserted a (summary older a.updater_name)) ≡ summary (a ∷ older) a.updater_name
unfolding inserted updated
upserted-summary a older =
    rw (summary, str_eq_refl a.updater_name)
      (elim (Option-cases (last_attempt_of older a.updater_name)) [
        | inl n ↦
            let (s, e) = none_of older a.updater_name n in
            elim (Option-cases a.updater_error) [
              | inl q ↦ rw (n, upserted, q, e)
              | inr (t, q) ↦ rw (n, upserted, q, s)
            ]
        | inr (b, n) ↦ elim (Option-cases a.updater_error) [
          | inl q ↦ rw (q, n)
          | inr (t, q) ↦ rw (q, n)
        ]
      ])

-- After any attempts, the table has exactly the updaters that were attempted, each with the time,
-- the fingerprint and the outcome of its last attempt, the time of its last success, and the text
-- of its last error, which a later success does not clear.
pub status_of-after_attempts :
    (history : List Attempt) (u : Str) → status_of (after_attempts history) u ≡ summary history u
status_of-after_attempts [] u = refl
status_of-after_attempts (a ∷ older) u = elim (Bool-cases (str_eq a.updater_name u)) [
  | inl e ↦
      let same : a.updater_name ≡ u = (str_eq_iff a.updater_name u).0 e in
      status_of-record a (after_attempts older) u
      ∙ ap
          (λ b.
            if b
            then some (upserted a (status_of (after_attempts older) a.updater_name))
            else status_of (after_attempts older) u)
          e
      ∙ ap (λ o. some (upserted a o)) (status_of-after_attempts older a.updater_name)
      ∙ upserted-summary a older
      ∙ ap (summary (a ∷ older)) same
  | inr e ↦
      status_of-record a (after_attempts older) u
      ∙ ap
          (λ b.
            if b
            then some (upserted a (status_of (after_attempts older) a.updater_name))
            else status_of (after_attempts older) u)
          e
      ∙ status_of-after_attempts older u
      ∙ rw (summary, e)
]
