-- ===== src/Tests/AdminRuns.antt =====
-- The administration server and the admission at concrete values.
use kse_static_rewrite_proxy.Base.{◌≤◌, ◌<◌, [], ◌∷◌, ◌≡◌, ◌↔◌, refl, some, true, false, arith}
use kse_static_rewrite_proxy.Slice.{Bytes, bytes}
use kse_static_rewrite_proxy.Slice.Text.{all_bytes, contains_byte}
use kse_static_rewrite_proxy.Config.{EffectiveConfig}
use kse_static_rewrite_proxy.Config.Listeners.{localhost_v4}
use kse_static_rewrite_proxy.Config.Percent.{is_ascii_hexdigit}
use kse_static_rewrite_proxy.Admin.{Environment, version_body, normalize_git_commit}
use kse_static_rewrite_proxy.Admin.Claims.{Routed, respond-Routed}
use kse_static_rewrite_proxy.Admin.Version.{SameCommit, version_body_iff}
use kse_static_rewrite_proxy.Proxy.{
  admitted, refused, try_admit, try_queue, new_admission, release_active,
}
use kse_static_rewrite_proxy.Proxy.Interleaving.{
  World, Reach, start, arrive, leave, waiting, done, now, later, here, next, count, is_active,
  is_waiting, arrived,
}
use kse_static_rewrite_proxy.Proxy.Interleaving.Invariant.{IsBalanced}
use kse_static_rewrite_proxy.Proxy.Interleaving.Claims.{
  Drained, reachable-Drained, reachable-IsBalanced, answer_iff, in_use,
}
use kse_static_rewrite_proxy.Policy.{all_rules}
use kse_static_rewrite_proxy.Http.{is_visible}
use kse_static_rewrite_proxy.Tests.FairPermits.{permits}

abbrev environment : Environment
environment = record {
  package_version = bytes "0.1.0";
  git_commit = some (bytes "abc1234");
  connects = λ address. false;
  encode = some (bytes "text/plain; version=0.0.4", bytes "kse_rewrite_active 0");
}

short_commit : normalize_git_commit (some (bytes "abcdef")) ≡ bytes "unknown"
unfolding normalize_git_commit all_bytes is_ascii_hexdigit
short_commit = refl

encoded_visible :
    (kind body : Bytes) → environment.encode ≡ some (kind, body) → all_bytes is_visible kind ≡ true
encoded_visible kind body e =
    let same : bytes "text/plain; version=0.0.4" ≡ kind = ground arith in
    rw (← same) (unfold all_bytes in refl)

respond-Routed_example :
    Routed environment (record { ip = localhost_v4; port = 8000 }) (bytes "/readyz")
respond-Routed_example =
    respond-Routed environment (record { ip = localhost_v4; port = 8000 }) (bytes "/readyz")
      encoded_visible

version_body_iff_example : (version_body environment ≡ version_body environment) ↔ (
    (bytes "0.1.0" ≡ bytes "0.1.0") × SameCommit (some (bytes "abc1234")) (some (bytes "abc1234")))
unfolding contains_byte
version_body_iff_example = version_body_iff environment environment refl refl

abbrev pub config : EffectiveConfig
config = record {
  base_path = bytes "/base";
  listen = record { ip = localhost_v4; port = 8080 };
  admin_listen = record { ip = localhost_v4; port = 9090 };
  upstream = record { ip = localhost_v4; port = 8000 };
  enabled_extensions = bytes "demo" ∷ [];
  disabled_extensions = [];
  enabled_rules = all_rules;
  max_decoded_bytes = 1000;
  max_concurrent = 1;
  max_queued = 1;
}

abbrev pub busy : World permits
busy = arrived permits (arrived permits (start permits config))

busy_reached : Reach permits (start permits config) busy
busy_reached = next (next here arrive) arrive

reachable-IsBalanced_example :
    IsBalanced permits config busy
    × (count is_active busy.requests ≤ 1)
    × (count is_waiting busy.requests ≤ 1)
reachable-IsBalanced_example =
    reachable-IsBalanced permits config busy (omega arith) (omega arith) busy_reached

-- The active request has left, and its permit is assigned to the one that waits.
abbrev handed : World permits
handed = record {
  admission = release_active permits busy.admission;
  requests = waiting ∷ done ∷ [];
}

handed_reached : Reach permits (start permits config) handed
unfolding new_admission try_admit try_queue
handed_reached = next busy_reached (leave (waiting ∷ done ∷ []) (later waiting (now [])))

newcomer_refused : (try_admit permits handed.admission).0 ≡ refused
unfolding new_admission try_admit try_queue release_active
newcomer_refused = refl

answer_iff_example :
    (((try_admit permits handed.admission).0 ≡ admitted) ↔ (in_use permits config handed < 1))
    × (((try_admit permits handed.admission).0 ≡ refused)
        ↔ ((in_use permits config handed ≡ 1) × (count is_waiting handed.requests ≡ 1)))
answer_iff_example = answer_iff permits config handed (omega arith) (omega arith) handed_reached

reachable-Drained_example :
    (v : World permits) × Drained permits handed v
    × (permits.available v.admission.active ≡ 1)
    × (permits.available v.admission.queued ≡ 1)
reachable-Drained_example =
    reachable-Drained permits config handed (omega arith) (omega arith) (omega arith) handed_reached
