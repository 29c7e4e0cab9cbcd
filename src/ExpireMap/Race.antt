-- ===== src/ExpireMap/Race.antt =====
-- Get gives up the read lock before it takes the write lock, so another call may come between.
use sdl_control.Base.{ℕ, ◌≡◌, none, some, true, Eq, arith, beq_refl, ◌∙◌}
use sdl_control.Base.Map.{get-delete, get-put}
use sdl_control.Base.Map
use sdl_control.ExpireMap.{ExpireMap, is_past, set, get_read, get_resume, get_finish}
use sdl_control.ExpireMap.Laws.{live, live-set, live-delete}

module _ {K T : Type 0} ⦃e : Eq K⦄ where
  -- When Get reads an expired entry and another call sets the key before Get takes the write lock, the
  -- fresh value is alive and Get then removes it: no reader sees it any more.
  pub get_race :
      (m : ExpireMap K T) (now t : ℕ) (k : K) (old fresh : T)
      → Map.get m.entries k ≡ some old
      → is_past (Map.get m.expiration k) now ≡ true
      → (live (set m now k fresh) now k ≡ some fresh)
        × (live (get_resume (set m now k fresh) now k (get_read m k)).0 t k ≡ none)
  unfolding get_resume get_read
  get_race m now t k old fresh found past = (
    live-set m now now k fresh k ∙ rw (beq_refl k) (ground arith),
    rw (found, get_finish) (rw (past, live-delete (set m now k fresh) t k k, beq_refl k)),
  )
