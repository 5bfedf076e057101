-- ===== src/Tests/Secrets.antt =====
-- Runs of secure/key, with a resolver that knows one of two keys.
use webpa_common.Base.{
  ℕ, ◌+◌, ◌≤◌, ◌<◌, ◌≡◌, ◌≢◌, ◌⊎◌, refl, none, some, [], ◌∷◌, String, String_discrete, GoMap,
  lookup, string_key, length, ok, err, ne_of_test, ite, UniqueKeys,
}
use webpa_common.Secure.KeyCache.{Resolver, MultiCache, fetch_pair, update_locked, multi_resolve}
use webpa_common.Secure.KeyCache.Updates.{IsRenewedIn, index, update_locked_lem, multi_resolve_lem}

abbrev key_a : String
key_a = "a"

abbrev key_b : String
key_b = "b"

abbrev resolver : Resolver String ℕ
resolver i key = ite (String_discrete key key_a) (ok 7) (err "unknown")

abbrev cached : GoMap String ℕ
cached = (key_a, 1) ∷ (key_b, 2) ∷ []

abbrev cache : MultiCache ℕ
cache = record { value = some cached; calls = 0 }

abbrev empty : MultiCache ℕ
empty = record { value = none; calls = 0 }

a_not_b : key_a ≢ key_b
a_not_b = ne_of_test key_a key_b refl

cached-UniqueKeys : UniqueKeys cached
unfolding lookup String_discrete
cached-UniqueKeys = (refl, (refl, tt))

update_locked_lem_example :
    ((update_locked resolver cached cache).0.calls ≡ 0 + length cached)
    × ((update_locked resolver cached cache).1 ≡ length cached)
    × (((length (update_locked resolver cached cache).2 ≡ length cached)
          × ((update_locked resolver cached cache).0.value ≡ cache.value))
        ⊎ ((length (update_locked resolver cached cache).2 < length cached)
            × IsRenewedIn resolver
                (0 + index key_b cached)
                key_b
                (lookup key_b cached)
                (fetch_pair key_b (update_locked resolver cached cache).0)))
update_locked_lem_example = update_locked_lem resolver key_b cached cache cached-UniqueKeys

nothing_cached : fetch_pair key_a empty ≡ none
unfolding fetch_pair
nothing_cached = refl

multi_resolve_lem_example :
    (fetch_pair key_b (multi_resolve resolver key_a (λ c. cache) empty).0 ≡ fetch_pair key_b cache)
    × ((multi_resolve resolver key_a (λ c. cache) empty).0.calls ≤ 0 + 1)
    × (((p : ℕ) × ((multi_resolve resolver key_a (λ c. cache) empty).1 ≡ ok p)
          × (fetch_pair key_a (multi_resolve resolver key_a (λ c. cache) empty).0 ≡ some p))
        ⊎ ((e : String) × ((multi_resolve resolver key_a (λ c. cache) empty).1 ≡ err e)
            × ((multi_resolve resolver key_a (λ c. cache) empty).0.value ≡ cache.value)))
multi_resolve_lem_example =
    multi_resolve_lem resolver key_a key_b (λ c. cache) empty nothing_cached a_not_b
