-- ===== src/Deployment/Discovery/Offered.antt =====
-- backend/service/deployment_version_probe.py: every toolkit that is offered has a known minimum driver.
use v_llm_dashboard.Prelude.{
  ℕ, ◌≡◌, refl, Bool, true, Option, none, some, List, [], ◌∷◌, All, filterb, is_some, ltb, inl, inr,
  Bool-cases,
}
use v_llm_dashboard.Prelude.Texts.{Text}
use v_llm_dashboard.Deployment.Versions.{cuda_min_driver, required_by}
use v_llm_dashboard.Deployment.Discovery.{
  Source, CudaCache, static_versions, cached_value, reversed_onto, offered_versions, fetched_cuda,
  or_fetch, probe_cuda_repo_versions,
}

abbrev is_known : Text → Bool
is_known v = is_some (required_by v cuda_min_driver)

abbrev pub Known : List Text → Type 0
Known = All (λ v. is_some (required_by v cuda_min_driver) ≡ true)

abbrev pub KnownIn : Option (List Text × Source) → Type 0
KnownIn none = Unit
KnownIn (some (versions, source)) = Known versions

filterb-Known : (vs : List Text) → Known (filterb is_known vs)
filterb-Known [] = tt
filterb-Known (v ∷ vs) = elim (Bool-cases (is_known v)) [
  | inl y ↦ rw y (y, filterb-Known vs)
  | inr n ↦ rw n (filterb-Known vs)
]

reversed_onto-Known : (vs acc : List Text) → Known vs → Known acc → Known (reversed_onto vs acc)
reversed_onto-Known [] acc h k = k
reversed_onto-Known (v ∷ vs) acc (y, h) k = reversed_onto-Known vs (v ∷ acc) h (y, k)

static_versions-Known : Known static_versions
unfolding required_by
static_versions-Known = (refl, (refl, (refl, tt)))

-- a reply and the cache behind it
abbrev Sound : (List Text × Source) × CudaCache → Type 0
Sound (reply, c) = KnownIn (some reply) × KnownIn c.value

fetched_cuda-Sound : (now : ℕ) (vs : List Text) → Known vs → Sound (fetched_cuda now vs)
fetched_cuda-Sound now [] h = (static_versions-Known, static_versions-Known)
fetched_cuda-Sound now (v ∷ vs) h = (h, h)

or_fetch-Sound :
    (o : Option (List Text × Source)) (c : CudaCache) (fetched : (List Text × Source) × CudaCache)
    → KnownIn o
    → KnownIn c.value
    → Sound fetched
    → Sound (or_fetch o c fetched)
or_fetch-Sound none c fetched h k s = s
or_fetch-Sound (some reply) c fetched h k s = (h, k)

cached_value-Known : (now : ℕ) (c : CudaCache) → KnownIn c.value → KnownIn (cached_value now c)
unfolding cached_value
cached_value-Known now c h = elim (Bool-cases (ltb now c.expires)) [
  | inl y ↦ rw y h
  | inr n ↦ rw n tt
]

-- Whatever the index of the repository offers, and whether the answer is fetched, cached or the static
-- list, every toolkit in the answer and in the cache behind it has a known minimum driver, if those in
-- the cache had.
pub probe_cuda_repo_versions-Known :
    (now : ℕ) (index : List Text) (c : CudaCache)
    → KnownIn c.value
    → KnownIn (some (probe_cuda_repo_versions now index c).0)
      × KnownIn (probe_cuda_repo_versions now index c).1.value
unfolding probe_cuda_repo_versions offered_versions
probe_cuda_repo_versions-Known now index c h =
    or_fetch-Sound (cached_value now c) c (fetched_cuda now (offered_versions index))
      (cached_value-Known now c h) h
      (fetched_cuda-Sound now (offered_versions index)
        (reversed_onto-Known (filterb is_known index) [] (filterb-Known index) tt))
