-- ===== src/Admin/Version.antt =====
-- What the body of `/version` tells of a build.
use kse_static_rewrite_proxy.Base.{
  ◌≤◌, true, false, [], ◌∷◌, ◌++◌, ◌≡◌, ◌↔◌, ◌⊎◌, refl, sym, ◌∙◌, Option, none, some, inl, inr,
  arith, Bool-cases, length,
}
use kse_static_rewrite_proxy.Slice.{Bytes, bytes}
use kse_static_rewrite_proxy.Slice.Text.{all_bytes, contains_byte}
use kse_static_rewrite_proxy.Slice.Split.{byte_split}
use mathlib.Core.List.{append_cancel_left}
use kse_static_rewrite_proxy.Proxy.Etag.{rewrite_rule_version}
use kse_static_rewrite_proxy.Config.Percent.{is_ascii_hexdigit}
use kse_static_rewrite_proxy.Admin.{Environment, is_commit, normalize_git_commit, version_body}

hex-free :
    (value : Bytes) → all_bytes is_ascii_hexdigit value ≡ true → contains_byte b'"' value ≡ false
unfolding all_bytes contains_byte is_ascii_hexdigit
hex-free [] h = refl
hex-free (b ∷ bs) h = ground (arith, hex-free bs)

commit-free : (commit : Option Bytes) → contains_byte b'"' (normalize_git_commit commit) ≡ false
unfolding normalize_git_commit contains_byte
commit-free none = refl
commit-free (some value) = elim (Bool-cases (is_commit value)) [
  | inl valid ↦ rw valid (hex-free value (ground arith))
  | inr other ↦ rw other refl
]

-- The body tells the package's version and what is made of the commit.
version_body-eq :
    (env env' : Environment)
    → contains_byte b'"' env.package_version ≡ false
    → contains_byte b'"' env'.package_version ≡ false
    → version_body env ≡ version_body env'
    → (env.package_version ≡ env'.package_version)
      × (normalize_git_commit env.git_commit ≡ normalize_git_commit env'.git_commit)
unfolding version_body
version_body-eq env env' h h' e =
    let behind = append_cancel_left (bytes "{\"packageVersion\":\"") _ _ e in
    let (versions, rest) =
      byte_split b'"' env.package_version env'.package_version _ _ h h' behind in
    let commits =
      append_cancel_left
        (bytes ",\"rewriteRuleVersion\":\""
          ++ (rewrite_rule_version ++ bytes "\",\"gitCommit\":\""))
        _ _ rest in
    let (same, end) =
      byte_split b'"' (normalize_git_commit env.git_commit) (normalize_git_commit env'.git_commit) _
        _ (commit-free env.git_commit) (commit-free env'.git_commit) commits in
    (versions, same)

-- A commit in hexadecimal digits, abbreviated or not.
abbrev pub IsCommit : Bytes → Type 0
IsCommit value =
    (7 ≤ length value) × (length value ≤ 64) × (all_bytes is_ascii_hexdigit value ≡ true)

abbrev pub HasCommit : Option Bytes → Type 0
HasCommit commit = (value : Bytes) × (commit ≡ some value) × IsCommit value

-- Both builds have the same commit, or neither has one.
abbrev pub SameCommit : Option Bytes → Option Bytes → Type 0
SameCommit commit commit' =
    ((value : Bytes) × (commit ≡ some value) × (commit' ≡ some value) × IsCommit value)
    ⊎ ((HasCommit commit → ⊥) × (HasCommit commit' → ⊥))

-- What `normalize_git_commit` makes of a commit.
abbrev Normal : Option Bytes → Bytes → Type 0
Normal commit shown =
    ((commit ≡ some shown) × IsCommit shown) ⊎ ((HasCommit commit → ⊥) × (shown ≡ bytes "unknown"))

normalize-Normal : (commit : Option Bytes) → Normal commit (normalize_git_commit commit)
unfolding normalize_git_commit
normalize-Normal none = inr (λ (value, e, valid). cc, refl)
normalize-Normal (some value) = elim (Bool-cases (is_commit value)) [
  | inl valid ↦ rw valid (inl (refl, (ground arith, ground arith, ground arith)))
  | inr other ↦ rw other (inr (λ (value', e, valid). not_commit value' other e valid, refl))
]
  where
    not_commit :
        (value' : Bytes) → is_commit value ≡ false → some value ≡ some value' → IsCommit value' → ⊥
    not_commit value' other e (long, short, hex) =
        let same : value ≡ value' = cc in
        let accepted : is_commit value ≡ true = rw same (ground arith) in cc

-- A valid commit is not shown as `unknown`.
unknown_free : IsCommit (bytes "unknown") → ⊥
unfolding all_bytes is_ascii_hexdigit
unknown_free (long, short, hex) = cc

Normal-SameCommit :
    (commit commit' : Option Bytes) (shown : Bytes)
    → Normal commit shown
    → Normal commit' shown
    → SameCommit commit commit'
Normal-SameCommit commit commit' shown (inl (e, valid)) (inl (f, valid')) = inl (shown, e, f, valid)
Normal-SameCommit commit commit' shown (inl (e, valid)) (inr (lacks, same)) =
    absurd (unknown_free (rw same at valid))
Normal-SameCommit commit commit' shown (inr (lacks, same)) (inl (f, valid)) =
    absurd (unknown_free (rw same at valid))
Normal-SameCommit commit commit' shown (inr (lacks, same)) (inr (lacks', same')) =
    inr (lacks, lacks')

Normal-eq :
    (commit commit' : Option Bytes) (shown shown' : Bytes)
    → Normal commit shown
    → Normal commit' shown'
    → SameCommit commit commit'
    → shown ≡ shown'
Normal-eq commit commit' shown shown' (inl (e, valid)) (inl (f, valid')) (inl (value, g, h, both)) =
    cc
Normal-eq commit commit' shown shown' (inl (e, valid)) n (inr (lacks, lacks')) =
    absurd (lacks (shown, e, valid))
Normal-eq commit commit' shown shown' n (inl (f, valid)) (inr (lacks, lacks')) =
    absurd (lacks' (shown', f, valid))
Normal-eq commit commit' shown shown' (inr (lacks, same)) n (inl (value, g, h, both)) =
    absurd (lacks (value, g, both))
Normal-eq commit commit' shown shown' n (inr (lacks, same)) (inl (value, g, h, both)) =
    absurd (lacks (value, h, both))
Normal-eq commit commit' shown shown' (inr (lacks, same)) (inr (lacks', same')) s = same ∙ sym same'

-- For package versions without a quote: two builds have the same body of `/version` exactly if their
-- package versions are the same, and they have the same commit of 7 to 64 hexadecimal digits or
-- neither has such a commit.
pub version_body_iff :
    (env env' : Environment)
    → contains_byte b'"' env.package_version ≡ false
    → contains_byte b'"' env'.package_version ≡ false
    → (version_body env ≡ version_body env')
      ↔ ((env.package_version ≡ env'.package_version) × SameCommit env.git_commit env'.git_commit)
version_body_iff env env' free free' = (
  λ e.
      let (version, commit) = version_body-eq env env' free free' e in
      (
        version,
        Normal-SameCommit env.git_commit env'.git_commit (normalize_git_commit env.git_commit)
            (normalize-Normal env.git_commit) (rw (commit) (normalize-Normal env'.git_commit)),
      ),
  λ (version, same).
      let commit =
        Normal-eq env.git_commit env'.git_commit _ _ (normalize-Normal env.git_commit)
          (normalize-Normal env'.git_commit) same in
      unfold version_body in rw (version, commit) refl,
)
