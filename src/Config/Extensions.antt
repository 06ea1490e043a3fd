-- ===== src/Config/Extensions.antt =====
-- src/config.rs: `validate_explicit_extensions`, and the switches of the rules in `from_yaml`.
pub mod Claims
use kse_static_rewrite_proxy.Base.{
  ℕ, Bool, true, false, not, List, [], ◌∷◌, Option, none, some, if◌then◌else◌, ◌==◌,
}
use kse_static_rewrite_proxy.Slice.{Bytes}
use kse_static_rewrite_proxy.Slice.Text.{contains}
use kse_static_rewrite_proxy.Policy.{
  RewriteRule, number, try_from, contains_rule, is_safe_extension_name,
}
use kse_static_rewrite_proxy.Config.Error.{
  Result, ok, err, invalid_extension, duplicate_extension, unknown_rule, ◌>>◌, ◌>>=◌, fail_if,
  ok_or,
}

-- The loop, with the names that it has seen.
unfoldable pub validate_unseen : Bytes → List Bytes → List Bytes → Result (Unit {0})
validate_unseen field seen [] = ok tt
validate_unseen field seen (extension ∷ extensions) = do
  fail_if (not (is_safe_extension_name extension)) (invalid_extension field extension)
  fail_if (contains seen extension) (duplicate_extension field extension)
  validate_unseen field (extension ∷ seen) extensions

unfoldable pub validate_explicit_extensions : Bytes → List Bytes → Result (Unit {0})
unfolding validate_unseen
validate_explicit_extensions field extensions = validate_unseen field [] extensions

-- `HashSet::insert` and `HashSet::remove`.
unfoldable pub insert_rule : RewriteRule → List RewriteRule → List RewriteRule
insert_rule rule rules = if contains_rule rules rule then rules else rule ∷ rules

unfoldable pub remove_rule : RewriteRule → List RewriteRule → List RewriteRule
remove_rule rule [] = []
remove_rule rule (r ∷ rs) =
    if number r == number rule then remove_rule rule rs else r ∷ remove_rule rule rs

-- The loop over the switches. A `HashMap` is walked in some order, with no key twice.
unfoldable pub switch_rules : List (ℕ × Bool) → List RewriteRule → Result (List RewriteRule)
unfolding insert_rule remove_rule
switch_rules [] enabled_rules = ok enabled_rules
switch_rules ((n, enabled) ∷ switches) enabled_rules = do
  rule ← ok_or (try_from n) (unknown_rule n)
  switch_rules switches
      (if enabled then insert_rule rule enabled_rules else remove_rule rule enabled_rules)
