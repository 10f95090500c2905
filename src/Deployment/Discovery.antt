-- ===== src/Deployment/Discovery.antt =====
-- backend/service/deployment_version_probe.py: the versions that the deployment tabs offer, with their
-- caches. A request that finds another fetch under way waits for it, so that it reads the cache behind
-- it. What the package index prints and what PyPI answers are inputs; times are in seconds.
pub mod Offered
use v_llm_dashboard.Prelude.{
  ℕ, zero, suc, ◌+◌, Bool, true, false, not, ◌&&◌, Option, none, some, List, [], ◌∷◌, ◌++◌, map,
  filterb, is_some, ltb, take, drop, length, ◌-◌, if◌then◌else◌, ◌==◌, nat_eq,
}
use v_llm_dashboard.Prelude.Texts.{Text, text_eq, code_points, starts_with}
use v_llm_dashboard.Prelude.Words.{strip_text, is_empty_text}
use v_llm_dashboard.Prelude.Regex.{full_match}
use v_llm_dashboard.Deployment.Versions.{
  vllm_ver_re, cuda_min_driver, required_by, cuda_ver_key, key_ltb,
}

-- _TtlCache: a value and when it expires
pub record TtlCache (A : Type 0) : Type 0 where
  pub value : Option A
  pub expires : ℕ

module _ {A : Type 0} where
  -- `get`
  unfoldable pub cached_value : ℕ → TtlCache A → Option A
  cached_value now c = if ltb now c.expires then c.value else none

  -- `commit`, with the time for which the value stands
  abbrev pub commit : ℕ → ℕ → A → TtlCache A
  commit now ttl v = record { value = some v; expires = now + ttl }

abbrev cuda_ttl : ℕ
cuda_ttl = 900

abbrev cuda_negative_ttl : ℕ
cuda_negative_ttl = 300

abbrev vllm_ttl : ℕ
vllm_ttl = 3600

abbrev vllm_negative_ttl : ℕ
vllm_negative_ttl = 600

-- where a list of toolkits comes from
pub data Source : Type 0 where
  repo fallback : Source

abbrev pub CudaCache : Type 0
CudaCache = TtlCache (List Text × Source)

-- _CUDA_VERSIONS
abbrev pub static_versions : List Text
static_versions = code_points "12.9" ∷ code_points "13.0" ∷ code_points "13.2" ∷ []

abbrev pub reversed_onto : List Text → List Text → List Text
reversed_onto [] acc = acc
reversed_onto (v ∷ vs) acc = reversed_onto vs (v ∷ acc)

-- the toolkits with a known minimum driver, the newest first
unfoldable pub offered_versions : List Text → List Text
unfolding required_by
offered_versions versions =
    reversed_onto (filterb (λ v. is_some (required_by v cuda_min_driver)) versions) []

abbrev pub fetched_cuda : ℕ → List Text → (List Text × Source) × CudaCache
fetched_cuda now [] =
    ((static_versions, fallback), commit now cuda_negative_ttl (static_versions, fallback))
fetched_cuda now (v ∷ vs) = ((v ∷ vs, repo), commit now cuda_ttl (v ∷ vs, repo))

abbrev pub or_fetch :
    Option (List Text × Source)
    → CudaCache
    → (List Text × Source) × CudaCache
    → (List Text × Source) × CudaCache
or_fetch none c fetched = fetched
or_fetch (some v) c fetched = (v, c)

-- `probe_cuda_repo_versions`, from the versions that the index is parsed to, none of them where the
-- command or the parse fails
unfoldable pub probe_cuda_repo_versions :
    ℕ → List Text → CudaCache → (List Text × Source) × CudaCache
unfolding cached_value offered_versions
probe_cuda_repo_versions now index c =
    or_fetch (cached_value now c) c (fetched_cuda now (offered_versions index))

abbrev first_or_static : Option (List Text × Source) → List Text
first_or_static none = static_versions
first_or_static (some (versions, source)) = versions

-- `cached_cuda_versions_or_fallback`
unfoldable pub cached_cuda_versions_or_fallback : ℕ → CudaCache → List Text
unfolding cached_value
cached_cuda_versions_or_fallback now c = first_or_static (cached_value now c)

-- sort(reverse=True) by the key, equal keys as they stood
unfoldable pub insert_version : Text → List Text → List Text
insert_version v [] = v ∷ []
insert_version v (u ∷ us) =
    let rest = insert_version v us in
    if key_ltb (cuda_ver_key v) (cuda_ver_key u) then u ∷ rest else v ∷ u ∷ us

unfoldable pub sort_versions : List Text → List Text
unfolding insert_version
sort_versions [] = []
sort_versions (v ∷ vs) = insert_version v (sort_versions vs)

abbrev pub max_listed : ℕ
max_listed = 20

-- `parse_vllm_releases`, from the keys of the mapping
unfoldable pub parse_vllm_releases : List Text → List Text
unfolding sort_versions
parse_vllm_releases releases =
    take max_listed (sort_versions (filterb (λ v. full_match vllm_ver_re v) releases))

abbrev drop_slashes : Text → Text
drop_slashes [] = []
drop_slashes (c ∷ text) =
    let rest = drop_slashes text in if c == b'/' && is_empty_text rest then [] else c ∷ rest

abbrev simple : Text
simple = code_points "/simple"

abbrev ends_with : Text → Text → Bool
ends_with s t = not (ltb (length s) (length t)) && drop (length s - length t) s == t

-- `_pypi_json_url`
unfoldable pub pypi_json_url : Text → Option Text
pypi_json_url mirror =
    let m = drop_slashes (strip_text mirror) in
    if ends_with m simple
    then some (take (length m - length simple) m ++ code_points "/pypi/vllm/json")
    else none

abbrev pub official_url : Text
official_url = code_points "https://pypi.org/pypi/vllm/json"

abbrev behind_official : Option Text → List Text
behind_official none = []
behind_official (some url) = if url == official_url then [] else url ∷ []

-- the loop over the addresses, with what each of them answers
unfoldable pub first_releases : (Text → List Text) → List Text → List Text
unfolding parse_vllm_releases
first_releases answer [] = []
first_releases answer (url ∷ urls) =
    let rest = first_releases answer urls in
    let versions = parse_vllm_releases (answer url) in
    if length versions == 0 then rest else versions

abbrev fetched_vllm : ℕ → List Text → List Text × TtlCache (List Text)
fetched_vllm now [] = ([], commit now vllm_negative_ttl [])
fetched_vllm now (v ∷ vs) = (v ∷ vs, commit now vllm_ttl (v ∷ vs))

-- `get_vllm_available_versions`; an address that fails answers no release
unfoldable pub get_vllm_available_versions :
    ℕ → Text → (Text → List Text) → TtlCache (List Text) → List Text × TtlCache (List Text)
unfolding cached_value pypi_json_url first_releases
get_vllm_available_versions now mirror answer c = elim (cached_value now c) [
  | some versions ↦ (versions, c)
  | none ↦
      fetched_vllm now
        (first_releases answer (official_url ∷ behind_official (pypi_json_url mirror)))
]
