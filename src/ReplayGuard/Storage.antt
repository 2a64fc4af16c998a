-- ===== src/ReplayGuard/Storage.antt =====
-- The file and the dictionary: what a write keeps for the next read of `hmac_replay_guard.py`.
use rpi_home_monitor.Base.{
  String, ◌≡◌, refl, true, [], ◌∷◌, get, keep_values, is_empty, nonempty, or_empty, or_empty-only,
  keep_values-nonempty, Distinct, get-keep_values, keep_values-Distinct, arith, ap, inl, inr,
  Bool-cases, ◌∙◌,
}
use rpi_home_monitor.ReplayGuard.{
  Cache, State, clean_cache, read_fields, read_state, dump_cache, dump, write_state, cache_of,
}

clean-dump_cache : (c : Cache) → clean_cache (dump_cache c) ≡ c
unfolding clean_cache dump_cache
clean-dump_cache [] = refl
clean-dump_cache ((k, e) ∷ c) = ap (◌∷◌ (k, e)) (clean-dump_cache c)

read-dump : (s : State) → read_fields (dump s) ≡ keep_values nonempty s
unfolding read_fields dump keep_values
read-dump [] = refl
read-dump ((k, c) ∷ s) = rw (clean-dump_cache c) (ground (arith, read-dump s))

-- A read after a write finds the state that was written, without the empty caches.
pub read-write : (s : State) → read_state (write_state s) ≡ keep_values nonempty s
unfolding read_state write_state
read-write s = elim (Bool-cases (is_empty (keep_values nonempty s))) [
  | inl e ↦ rw e (empty (keep_values nonempty s) e)
  | inr e ↦ rw (e, read-dump (keep_values nonempty s)) (keep_values-nonempty s)
]
  where
    empty : (t : State) → is_empty t ≡ true → [] ≡ t
    empty [] h = refl
    empty (x ∷ t) h = cc

-- No camera twice in the state, and no key twice in a cache.
pub record IsValid (s : State) : Type 0 where
  pub cameras : Distinct s
  pub caches : (c : String) → Distinct (cache_of c s)

-- What the next call finds for a camera is what this call left for it.
pub cache_of-read-write :
    (c : String) (s : State) → Distinct s → cache_of c (read_state (write_state s)) ≡ cache_of c s
cache_of-read-write c s h =
    rw (read-write s)
      (unfold cache_of in (ap or_empty (get-keep_values nonempty c s h) ∙ or_empty-only (get c s)))

pub read-write-IsValid : (s : State) → IsValid s → IsValid (read_state (write_state s))
read-write-IsValid s h = record {
  cameras = rw (read-write s) (keep_values-Distinct nonempty s h.cameras);
  caches = λ c. rw (cache_of-read-write c s h.cameras) (h.caches c);
}
