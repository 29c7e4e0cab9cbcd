-- ===== src/ExpireMap/Laws.antt =====
-- What the operations of the expiring map mean, seen through the entries that are alive.
use sdl_control.Base.{
  ℕ, ◌+◌, ◌≤◌, ◌≡◌, refl, [], ◌∷◌, Option, none, some, true, false, Eq, ◌==◌, nat_eq, ltb,
  if◌then◌else◌, arith, beq_refl, is_some, not, ◌&&◌, inl, inr, Option-cases, ◌∙◌,
}
use sdl_control.Base.Map.{Map, IsUnique, get-put, get-delete, delete-IsUnique}
use sdl_control.Base.Map
use sdl_control.ExpireMap.{
  ExpireMap, is_past, set, delete, try_set_if_absent, get, sweep, sweep_keys, drop_past,
  store_absent,
}

-- Once past, always past.
is_past_mono :
    (d : Option ℕ) (now later : ℕ) → now ≤ later → is_past d now ≡ true → is_past d later ≡ true
unfolding is_past
is_past_mono none now later h p = p
is_past_mono (some d) now later h p = ground arith

is_past-none : (now : ℕ) → is_past none now ≡ false
unfolding is_past
is_past-none now = refl

module _ {K T : Type 0} ⦃e : Eq K⦄ where
  -- The value that a reader may see at the time `now`.
  unfoldable pub live : ExpireMap K T → ℕ → K → Option T
  live m now k = if is_past (Map.get m.expiration k) now then none else Map.get m.entries k

  -- After Set the key shows the new value until the lifetime is over, or for ever if there is none;
  -- the other keys show what they showed.
  pub live-set :
      (m : ExpireMap K T) (now t : ℕ) (k : K) (v : T) (j : K)
      → live (set m now k v) t j ≡ (
          if k == j
          then (if ltb 0 m.ttl then (if ltb (now + m.ttl) t then none else some v) else some v)
          else live m t j)
  unfolding live set is_past
  live-set m now t k v j = ground (
    arith,
    get-put m.entries k v j,
    get-put m.expiration k (now + m.ttl) j,
    get-delete m.expiration k j,
  )

  pub live-delete :
      (m : ExpireMap K T) (t : ℕ) (k j : K)
      → live (delete m k) t j ≡ (if k == j then none else live m t j)
  unfolding live delete is_past
  live-delete m t k j = ground (arith, get-delete m.entries k j, get-delete m.expiration k j)

  -- Get returns the live value, and no reader can tell at any later time that it was called.
  pub get_lem :
      (m : ExpireMap K T) (now later : ℕ) (k j : K)
      → now ≤ later
      → ((get m now k).1 ≡ live m now k) × (live (get m now k).0 later j ≡ live m later j)
  unfolding get live delete
  get_lem m now later k j h = ground (
    arith,
    is_past_mono (Map.get m.expiration k) now later h,
    get-delete m.entries k j,
    get-delete m.expiration k j,
    e.beq_iff k j,
  )

  ttl-get : (m : ExpireMap K T) (now : ℕ) (k : K) → (get m now k).0.ttl ≡ m.ttl
  unfolding get delete
  ttl-get m now k = ground arith

  -- A Get and then a Set of the same key.
  pub live-set-get :
      (m : ExpireMap K T) (now t : ℕ) (k : K) (v : T) (j : K)
      → now ≤ t
      → live (set (get m now k).0 now k v) t j ≡ (
          if k == j
          then (if ltb 0 m.ttl && ltb (now + m.ttl) t then none else some v)
          else live m t j)
  live-set-get m now t k v j h =
      live-set (get m now k).0 now t k v j ∙ ground (arith, get_lem m now t k j h, ttl-get m now k)

  live-drop_past :
      (m : ExpireMap K T) (now later : ℕ) (k j : K)
      → now ≤ later
      → live (drop_past m now k) later j ≡ live m later j
  unfolding live drop_past delete
  live-drop_past m now later k j h = ground (
    arith,
    is_past_mono (Map.get m.expiration k) now later h,
    get-delete m.entries k j,
    get-delete m.expiration k j,
    e.beq_iff k j,
  )

  get-drop_past :
      (m : ExpireMap K T) (now : ℕ) (k : K) → Map.get (drop_past m now k).entries k ≡ live m now k
  unfolding live drop_past delete
  get-drop_past m now k = ground (arith, get-delete m.entries k k, beq_refl k)

  ttl-drop_past : (m : ExpireMap K T) (now : ℕ) (k : K) → (drop_past m now k).ttl ≡ m.ttl
  unfolding drop_past delete
  ttl-drop_past m now k = ground arith

  store_absent-eq-set :
      (m : ExpireMap K T) (now : ℕ) (k : K) (v : T)
      → store_absent m now k v none ≡ (set m now k v, true)
  unfolding store_absent set
  store_absent-eq-set m now k v = ground arith

  try_set_cases :
      (m : ExpireMap K T) (now : ℕ) (k : K) (v : T)
      → try_set_if_absent m now k v ≡ (
          if is_some (live m now k)
          then (drop_past m now k, false)
          else (set (drop_past m now k) now k v, true))
  unfolding try_set_if_absent
  try_set_cases m now k v = elim (Option-cases (live m now k)) [
    | inl e ↦ rw (get-drop_past m now k, e) (store_absent-eq-set (drop_past m now k) now k v)
    | inr (w, e) ↦ rw (get-drop_past m now k, e, store_absent)
  ]

  -- TrySetIfAbsent succeeds exactly when no value is alive, and then it acts as Set. When it fails, no
  -- reader can tell at any later time that it was called.
  pub try_set_if_absent_lem :
      (m : ExpireMap K T) (now later : ℕ) (k : K) (v : T) (j : K)
      → now ≤ later
      → ((try_set_if_absent m now k v).1 ≡ not (is_some (live m now k)))
        × (live (try_set_if_absent m now k v).0 later j
            ≡ (if is_some (live m now k) then live m later j else live (set m now k v) later j))
  try_set_if_absent_lem m now later k v j h = ground (
    arith,
    try_set_cases m now k v,
    live-drop_past m now later k j h,
    ttl-drop_past m now k,
    live-set m now later k v j,
    live-set (drop_past m now k) now later k v j,
  )

  get-sweep_keys :
      (keys : Map K ℕ) (m : ExpireMap K T) (now : ℕ) (j : K)
      → IsUnique keys
      → (Map.get (sweep_keys keys m now).entries j
          ≡ (if is_past (Map.get keys j) now then none else Map.get m.entries j))
        × (Map.get (sweep_keys keys m now).expiration j
            ≡ (if is_past (Map.get keys j) now then none else Map.get m.expiration j))
  unfolding sweep_keys is_past delete Map.get
  get-sweep_keys [] m now j u = (refl, refl)
  get-sweep_keys ((k, d) ∷ rest) m now j u = ground (
    arith,
    get-sweep_keys rest (if ltb 0 d && ltb d now then delete m k else m) now j u.1,
    get-delete m.entries k j,
    get-delete m.expiration k j,
    e.beq_iff k j,
  )

  -- A tick of the janitor over deadlines without double keys leaves no expired deadline behind, and
  -- no reader can tell at any later time that it ran.
  pub sweep_lem :
      (m : ExpireMap K T) (now later : ℕ) (j : K)
      → now ≤ later
      → IsUnique m.expiration
      → (is_past (Map.get (sweep m now).expiration j) now ≡ false)
        × (live (sweep m now) later j ≡ live m later j)
  unfolding sweep live
  sweep_lem m now later j h u = ground (
    arith,
    get-sweep_keys m.expiration m now j u,
    is_past_mono (Map.get m.expiration j) now later h,
    is_past-none now,
  )
