-- ===== src/Config/Extensions/Claims.antt =====
-- Which lists of extension names are accepted, and what the switches do to the rules.
use kse_static_rewrite_proxy.Base.{
  ℕ, Bool, true, false, ◌||◌, List, [], ◌∷◌, ◌≡◌, ◌↔◌, refl, Option, none, some, ◌==◌,
  if◌then◌else◌, arith, Bool-cases, inl, inr, ◌∙◌, sym, ap,
}
use kse_static_rewrite_proxy.Slice.{Bytes, equal}
use kse_static_rewrite_proxy.Slice.Text.{contains}
use kse_static_rewrite_proxy.Policy.{
  RewriteRule, number, try_from, find_rule, contains_rule, is_safe_extension_name,
}
use kse_static_rewrite_proxy.Config.Error.{ok_or, ok, fail_if, fail_if-ok, ok_or-ok}
use kse_static_rewrite_proxy.Config.Extensions.{
  validate_unseen, validate_explicit_extensions, insert_rule, remove_rule, switch_rules,
}

-- Every name is safe, no name stands twice, and none has been seen.
abbrev pub AreSafe : List Bytes → Type 0
AreSafe [] = Unit {0}
AreSafe (x ∷ xs) = (is_safe_extension_name x ≡ true) × AreSafe xs

abbrev pub AreDistinct : List Bytes → Type 0
AreDistinct [] = Unit {0}
AreDistinct (x ∷ xs) = (contains xs x ≡ false) × AreDistinct xs

abbrev AreUnseen : List Bytes → List Bytes → Type 0
AreUnseen seen [] = Unit {0}
AreUnseen seen (x ∷ xs) = (contains seen x ≡ false) × AreUnseen seen xs

equal_comm : (xs ys : Bytes) → equal xs ys ≡ equal ys xs
unfolding equal
equal_comm [] [] = refl
equal_comm [] (y ∷ ys) = refl
equal_comm (x ∷ xs) [] = refl
equal_comm (x ∷ xs) (y ∷ ys) = ground (arith, equal_comm xs ys)

AreUnseen-tail :
    (x : Bytes) (seen xs : List Bytes)
    → AreUnseen (x ∷ seen) xs
    → AreUnseen seen xs × (contains xs x ≡ false)
unfolding contains
AreUnseen-tail x seen [] u = (tt, refl)
AreUnseen-tail x seen (y ∷ ys) u =
    let (v, w) = AreUnseen-tail x seen ys u.1 in ((ground arith, v), ground (arith, equal_comm x y))

AreUnseen-cons :
    (x : Bytes) (seen xs : List Bytes)
    → AreUnseen seen xs
    → contains xs x ≡ false
    → AreUnseen (x ∷ seen) xs
unfolding contains
AreUnseen-cons x seen [] u h = tt
AreUnseen-cons x seen (y ∷ ys) u h =
    (ground (arith, equal_comm x y), AreUnseen-cons x seen ys u.1 (ground arith))

AreUnseen-nil : (xs : List Bytes) → AreUnseen [] xs
unfolding contains
AreUnseen-nil [] = tt
AreUnseen-nil (x ∷ xs) = (refl, AreUnseen-nil xs)

validate_unseen_sound :
    (field : Bytes) (seen xs : List Bytes)
    → validate_unseen field seen xs ≡ ok tt
    → AreSafe xs × AreDistinct xs × AreUnseen seen xs
unfolding validate_unseen
validate_unseen_sound field seen [] h = (tt, tt, tt)
validate_unseen_sound field seen (x ∷ xs) h =
    let (safe, h1) = fail_if-ok _ _ _ h in
    let (unseen, h2) = fail_if-ok _ _ _ h1 in
    let (safes, distinct, others) = validate_unseen_sound field (x ∷ seen) xs h2 in
    let (rest, fresh) = AreUnseen-tail x seen xs others in
    ((ground arith, safes), (fresh, distinct), (unseen, rest))

validate_unseen_complete :
    (field : Bytes) (seen xs : List Bytes)
    → AreSafe xs
    → AreDistinct xs
    → AreUnseen seen xs
    → validate_unseen field seen xs ≡ ok tt
unfolding validate_unseen fail_if
validate_unseen_complete field seen [] s d u = refl
validate_unseen_complete field seen (x ∷ xs) s d u =
    rw (s.0, u.0)
      (validate_unseen_complete field (x ∷ seen) xs s.1 d.1 (AreUnseen-cons x seen xs u.1 d.0))

-- A list of explicit extension names is accepted exactly if every name is safe and no name stands
-- in it twice.
pub validate_explicit_extensions_iff :
    (field : Bytes) (extensions : List Bytes)
    → (validate_explicit_extensions field extensions ≡ ok tt)
      ↔ (AreSafe extensions × AreDistinct extensions)
unfolding validate_explicit_extensions
validate_explicit_extensions_iff field extensions = (
  λ h. let (s, d, u) = validate_unseen_sound field [] extensions h in (s, d),
  λ h. validate_unseen_complete field [] extensions h.0 h.1 (AreUnseen-nil extensions),
)

-- The switch of a number, if there is one.
abbrev pub lookup : ℕ → List (ℕ × Bool) → Option Bool
lookup n [] = none
lookup n ((k, enabled) ∷ switches) = if k == n then some enabled else lookup n switches

abbrev pub AreKeysDistinct : List (ℕ × Bool) → Type 0
AreKeysDistinct [] = Unit {0}
AreKeysDistinct ((k, enabled) ∷ switches) = (lookup k switches ≡ none) × AreKeysDistinct switches

abbrev pub switched : Bool → Option Bool → Bool
switched before none = before
switched before (some enabled) = enabled

try_from-number : (n : ℕ) (rule : RewriteRule) → try_from n ≡ some rule → number rule ≡ n
unfolding try_from find_rule number
try_from-number n rule h = ground arith

contains_rule-number :
    (old new : RewriteRule) (rules : List RewriteRule)
    → number old ≡ number new
    → contains_rule rules old ≡ contains_rule rules new
unfolding contains_rule
contains_rule-number old new [] e = refl
contains_rule-number old new (r ∷ rs) e = ground (arith, contains_rule-number old new rs e)

contains-insert_rule :
    (new rule : RewriteRule) (rules : List RewriteRule)
    → contains_rule (insert_rule new rules) rule
      ≡ (number new == number rule || contains_rule rules rule)
unfolding insert_rule contains_rule
contains-insert_rule new rule rules = elim (Bool-cases (contains_rule rules new)) [
  | inl old ↦ rw (insert_rule, old) (ground (arith, contains_rule-number new rule rules))
  | inr fresh ↦ rw (insert_rule, fresh) refl
]

contains-remove_rule :
    (old rule : RewriteRule) (rules : List RewriteRule)
    → contains_rule (remove_rule old rules) rule
      ≡ (if number old == number rule then false else contains_rule rules rule)
unfolding remove_rule contains_rule
contains-remove_rule old rule [] = ground arith
contains-remove_rule old rule (r ∷ rs) = ground (arith, contains-remove_rule old rule rs)

abbrev after_switch : RewriteRule → Bool → List RewriteRule → List RewriteRule
after_switch rule true rules = insert_rule rule rules
after_switch rule false rules = remove_rule rule rules

contains-after_switch :
    (old rule : RewriteRule) (enabled : Bool) (rules : List RewriteRule)
    → contains_rule (after_switch old enabled rules) rule
      ≡ (if number old == number rule then enabled else contains_rule rules rule)
contains-after_switch old rule true rules = ground (arith, contains-insert_rule old rule rules)
contains-after_switch old rule false rules = contains-remove_rule old rule rules

-- One switch in front of others whose effect is known.
lookup_step :
    (n : ℕ) (r rule : RewriteRule) (enabled b c : Bool) (switches : List (ℕ × Bool))
    → number r ≡ n
    → lookup n switches ≡ none
    → c ≡ switched (if number r == number rule then enabled else b) (lookup (number rule) switches)
    → c ≡ switched b (lookup (number rule) ((n, enabled) ∷ switches))
lookup_step n r rule enabled b c switches same fresh h = elim (Bool-cases (n == number rule)) [
  | inl hit ↦
      let e : n ≡ number rule = ground arith in
      let none_left = ap (λ (k : ℕ). lookup k switches) (sym e) ∙ fresh in ground arith
  | inr miss ↦ ground arith
]

switch_step :
    (n : ℕ) (r : RewriteRule) (enabled : Bool) (switches : List (ℕ × Bool))
    (before rules : List RewriteRule)
    → try_from n ≡ some r
    → switch_rules ((n, enabled) ∷ switches) before ≡ ok rules
    → switch_rules switches (after_switch r enabled before) ≡ ok rules
unfolding switch_rules ok_or
switch_step n r true switches before rules e h = rw e at h
switch_step n r false switches before rules e h = rw e at h

-- Whatever the order of the switches, whose numbers are distinct: a rule is enabled at the end as
-- its switch says, and as before if it has none.
pub switch_rules-lookup :
    (switches : List (ℕ × Bool)) (before rules : List RewriteRule) (rule : RewriteRule)
    → AreKeysDistinct switches
    → switch_rules switches before ≡ ok rules
    → contains_rule rules rule
      ≡ switched (contains_rule before rule) (lookup (number rule) switches)
unfolding switch_rules
switch_rules-lookup [] before rules rule d h = ground arith
switch_rules-lookup ((n, enabled) ∷ switches) before rules rule d h =
    let (r, found, h') = ok_or-ok (try_from n) _ _ h in
    let after = after_switch r enabled before in
    let ih =
      switch_rules-lookup switches after rules rule d.1
        (switch_step n r enabled switches before rules found h) in
    lookup_step n r rule enabled (contains_rule before rule) (contains_rule rules rule) switches
      (try_from-number n r found) d.0
      (ih
        ∙ ap (λ (b : Bool). switched b (lookup (number rule) switches))
            (contains-after_switch r rule enabled before))
