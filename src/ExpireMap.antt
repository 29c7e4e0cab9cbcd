-- ===== src/ExpireMap.antt =====
-- control/expire_map.go: the map whose entries expire. A time is a count of nanoseconds, handed to
-- each operation as `now`; a deadline 0, or none, means that the entry does not expire.
pub mod Laws
pub mod Race
use sdl_control.Base.{
  ℕ, ◌+◌, ◌<◌, List, [], ◌∷◌, Option, none, some, Bool, true, false, ◌&&◌, Eq, ◌==◌, nat_eq, ltb,
  if◌then◌else◌,
}
use sdl_control.Base.Map.{Map}
use sdl_control.Base.Map

pub record ExpireMap {ℓ κ} (K : Type ℓ) (T : Type κ) : Type (ℓ ⊔ κ) where
  pub entries : Map K T
  pub expiration : Map K ℕ
  pub ttl : ℕ

module _ {ℓ κ} {K : Type ℓ} {T : Type κ} where
  -- NewExpireMap, without the goroutine that it starts
  unfoldable pub new_expire_map : ℕ → ExpireMap K T
  new_expire_map default_ttl = record { entries = []; expiration = []; ttl = default_ttl }

-- deadline, ok := e.expiration[key]; ok && deadline > 0 && now > deadline
unfoldable pub is_past : Option ℕ → ℕ → Bool
is_past none now = false
is_past (some deadline) now = ltb 0 deadline && ltb deadline now

-- What Get reads under the read lock
pub record Reading {κ} (T : Type κ) : Type κ where
  pub found : Option T
  pub deadline : Option ℕ

module _ {ℓ κ} {K : Type ℓ} {T : Type κ} ⦃e : Eq K⦄ where
  unfoldable pub set : ExpireMap K T → ℕ → K → T → ExpireMap K T
  set m now key value =
      let deadline = if ltb 0 m.ttl then now + m.ttl else 0 in
      record m {
        entries = Map.put m.entries key value;
        expiration =
            if deadline == 0
            then Map.delete m.expiration key
            else Map.put m.expiration key deadline;
      }

  -- Delete, and the removal of an expired key
  unfoldable pub delete : ExpireMap K T → K → ExpireMap K T
  delete m key = record m {
    entries = Map.delete m.entries key;
    expiration = Map.delete m.expiration key;
  }

  drop_past : ExpireMap K T → ℕ → K → ExpireMap K T
  unfolding delete is_past
  drop_past m now key = if is_past (Map.get m.expiration key) now then delete m key else m

  store_absent : ExpireMap K T → ℕ → K → T → Option T → ExpireMap K T × Bool
  store_absent m now key value (some held) = (m, false)
  store_absent m now key value none = (
    record m {
      entries = Map.put m.entries key value;
      expiration =
          if ltb 0 m.ttl
          then Map.put m.expiration key (now + m.ttl)
          else Map.delete m.expiration key;
    },
    true,
  )

  unfoldable pub try_set_if_absent : ExpireMap K T → ℕ → K → T → ExpireMap K T × Bool
  unfolding drop_past store_absent
  try_set_if_absent m now key value =
      let m' = drop_past m now key in store_absent m' now key value (Map.get m'.entries key)

  unfoldable pub get_read : ExpireMap K T → K → Reading T
  get_read m key = record { found = Map.get m.entries key; deadline = Map.get m.expiration key }

  -- What Get does with it, at the time that it reads the clock
  get_finish : ExpireMap K T → ℕ → K → Option T → Option ℕ → ExpireMap K T × Option T
  unfolding is_past delete
  get_finish m now key none deadline = (m, none)
  get_finish m now key (some value) deadline =
      if is_past deadline now then (delete m key, none) else (m, some value)

  unfoldable pub get_resume : ExpireMap K T → ℕ → K → Reading T → ExpireMap K T × Option T
  unfolding get_finish
  get_resume m now key r = get_finish m now key r.found r.deadline

  -- Get, where nothing comes between the two locks
  unfoldable pub get : ExpireMap K T → ℕ → K → ExpireMap K T × Option T
  unfolding get_read get_resume
  get m now key = get_resume m now key (get_read m key)

  sweep_keys : Map K ℕ → ExpireMap K T → ℕ → ExpireMap K T
  unfolding delete
  sweep_keys [] m now = m
  sweep_keys ((k, deadline) ∷ rest) m now =
      sweep_keys rest (if ltb 0 deadline && ltb deadline now then delete m k else m) now

  -- One tick of janitor
  unfoldable pub sweep : ExpireMap K T → ℕ → ExpireMap K T
  unfolding sweep_keys
  sweep m now = sweep_keys m.expiration m now
