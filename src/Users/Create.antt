-- ===== src/Users/Create.antt =====
-- control/user.go CreateUser: a user whose id is the next free number.
use sdl_control.Base.{
  ℕ, suc, ◌+◌, ◌%◌, ◌^◌, ◌≡◌, ◌<◌, refl, [], ◌∷◌, String, Option, none, some, Bool, true, false,
  ◌==◌, nat_eq, string_eq, if◌then◌else◌, is_some, arith, length, ap, ◌∙◌, sym, ◌⊎◌, beq_refl, ◌≢◌,
}
use text.Mathlib.TextEquality.{eq_iff}
use text.Mathlib.TextLemmas.{append_cancel_left}
use sdl_control.Base.Text.{trim_space, ◌<>◌}
use sdl_control.Base.Map.{Map, get, put, get-put}
use sdl_control.Base.Decimal.{decimal}
use sdl_control.Base.Text.Fold.{decimal_inj}
use sdl_control.Base.Search.{
  first_free, first_free_lem, first_free_same, first_free_bound, any_hits, enough_fuel,
}
use sdl_control.Users.State.{
  UserManager, UmUser, ok, Outcome, fail, save_locked, save_locked-state, save_locked-result,
  generate_basic_policy_locked, name_empty,
}

-- fmt.Sprintf("u-%d", n)
unfoldable pub user_id_of : ℕ → String
user_id_of n = "u-" <> decimal n

-- candidate i is the one of the i-th call of m.userSeq.Add(1), a uint64.
unfoldable pub id_taken : UserManager → ℕ → Bool
unfolding user_id_of
id_taken m i = is_some (get m.users (user_id_of (i % 2 ^ 64)))

abbrev pub default_domain : Option String → String
default_domain none = "ms.net"
default_domain (some d) = if trim_space d == "" then "ms.net" else trim_space d

-- What the end of the loop leaves
created : (UserManager → Bool) → UserManager → String → String → ℕ → ℕ → Outcome UmUser
created save m name domain now seq =
    let id = user_id_of seq in
    let user : UmUser = record { user_id = id; name = name; domain = domain; created_at = now } in
    save_locked save
      (record m {
        user_seq = seq;
        users = put m.users id user;
        policies = put m.policies id (generate_basic_policy_locked id now);
      })
      user

create_user_at :
    (UserManager → Bool) → UserManager → String → String → ℕ → Option ℕ → Option (Outcome UmUser)
create_user_at save m name domain now none = none
create_user_at save m name domain now (some seq) =
    some (created save m name domain now (seq % 2 ^ 64))

-- The loop has one step more than there are users; `none` is that it has not ended by then.
unfoldable pub create_user :
    (UserManager → Bool) → UserManager → String → Option String → ℕ → Option (Outcome UmUser)
unfolding id_taken create_user_at created
create_user save m name domain now =
    if name == ""
    then some (fail m name_empty)
    else create_user_at save m name (default_domain domain) now
        (first_free (id_taken m) (suc (length m.users)) (m.user_seq + 1))

is_some-none {ℓ} : {A : Type ℓ} {o : Option A} → is_some o ≡ false → o ≡ none
is_some-none {o = none} h = refl
is_some-none {o = some a} h = absurd (cc)

-- An entry of the users stands in the way of its own number.
abbrev hits : String × UmUser → ℕ → Bool
hits (id, user) i = id == user_id_of i

hits_once : (e : String × UmUser) (i j : ℕ) → hits e i ≡ true → hits e j ≡ true → i ≡ j
unfolding user_id_of
hits_once (id, user) i j hi hj = decimal_inj i j (
    append_cancel_left "u-" (decimal i) (decimal j)
      (sym ((eq_iff id (user_id_of i)).0 hi) ∙ (eq_iff id (user_id_of j)).0 hj))

taken-hits :
    (users : Map String UmUser) (i : ℕ) → is_some (get users (user_id_of i)) ≡ any_hits hits users i
unfolding get any_hits
taken-hits [] i = refl
taken-hits ((id, user) ∷ rest) i = ground (arith, taken-hits rest i)

module _ (m : UserManager) (bound : m.user_seq + length m.users + 2 < 2 ^ 64) where
  taken_below : (i : ℕ) → i < 2 ^ 64 → id_taken m i ≡ is_some (get m.users (user_id_of i))
  unfolding id_taken
  taken_below i l = ap (λ k. is_some (get m.users (user_id_of k))) (omega (arith, l))

  search_ends :
      (k : ℕ) × (first_free (id_taken m) (suc (length m.users)) (m.user_seq + 1) ≡ some k)
      × (k < 2 ^ 64)
  search_ends =
      let fuel = suc (length m.users) in
      let start = m.user_seq + 1 in
      let (k, found) = enough_fuel hits hits_once m.users fuel start (omega arith) in
      let same =
        first_free_same (id_taken m) (any_hits hits m.users) fuel start
          (λ j l u. taken_below j (omega (arith, bound, u)) ∙ taken-hits m.users j) in
      let below = first_free_bound (any_hits hits m.users) fuel start k found in
      (k, same ∙ found, omega (arith, bound, below))

-- The user under a number
abbrev pub numbered : String → Option String → ℕ → ℕ → UmUser
numbered name domain now k = record {
  user_id = user_id_of k;
  name = name;
  domain = default_domain domain;
  created_at = now;
}

module _ (save : UserManager → Bool) (m : UserManager) (name : String) (domain : Option String)
    (now k : ℕ) where
  abbrev leaves : Outcome UmUser
  leaves = created save m name (default_domain domain) now k

  -- The state before the store is asked
  abbrev stored : UserManager
  stored = record m {
    user_seq = k;
    users = put m.users (user_id_of k) (numbered name domain now k);
    policies = put m.policies (user_id_of k) (generate_basic_policy_locked (user_id_of k) now);
  }

  -- The user and a policy stand under the id, the other users are as they were, and the user is
  -- returned unless the store refuses.
  abbrev pub Stored : Outcome UmUser → Type 0
  Stored o =
      (o.state.user_seq ≡ k)
      × ((id : String)
          → get o.state.users id
            ≡ (if user_id_of k == id then some (numbered name domain now k) else get m.users id))
      × (is_some (get o.state.policies (user_id_of k)) ≡ true)
      × ((save o.state ≡ false) ⊎ (o.result ≡ ok (numbered name domain now k)))

  saved : Stored leaves
  unfolding created save_locked
  saved =
      let state : leaves.state ≡ stored =
        save_locked-state save stored (numbered name domain now k) in
      (
        ap (λ st. st.user_seq) state,
        λ id.
            ap (λ st. get st.users id) state
            ∙ get-put m.users (user_id_of k) (numbered name domain now k) id,
        ap (λ st. is_some (get st.policies (user_id_of k))) state
            ∙ (ap is_some (
                  get-put m.policies (user_id_of k)
                    (generate_basic_policy_locked (user_id_of k) now) (user_id_of k))
                ∙ rw (beq_refl (user_id_of k))),
        save_locked-result save stored (numbered name domain now k),
      )

  create_user_ends :
      name ≢ ""
      → first_free (id_taken m) (suc (length m.users)) (m.user_seq + 1) ≡ some k
      → k < 2 ^ 64
      → create_user save m name domain now ≡ some leaves
  unfolding create_user create_user_at
  create_user_ends ne found below =
      let same : k % 2 ^ 64 ≡ k = omega (arith, below) in
      ground (arith, found, same, eq_iff name "")

-- While the count of the ids stays below 2 ^ 64, CreateUser for a name that is not empty ends: with
-- the first number k above the count whose id no user has. It stores the user and a policy under that
-- id, leaves the other users as they were, and returns the user unless the store refuses.
pub create_user_lem :
    (save : UserManager → Bool) (m : UserManager) (name : String) (domain : Option String) (now : ℕ)
    → m.user_seq + length m.users + 2 < 2 ^ 64
    → name ≢ ""
    → (k : ℕ) × (o : Outcome UmUser) × (create_user save m name domain now ≡ some o)
      × (get m.users (user_id_of k) ≡ none)
      × ((j : ℕ) → m.user_seq < j → j < k → is_some (get m.users (user_id_of j)) ≡ true)
      × Stored save m name domain now k o
create_user_lem save m name domain now bound ne =
    let (k, found, below) = search_ends m bound in
    let (free, above, before) =
      first_free_lem (id_taken m) (suc (length m.users)) (m.user_seq + 1) k found in
    let ends = create_user_ends save m name domain now k ne found below in
    (
      k,
      created save m name (default_domain domain) now k,
      ends,
      is_some-none (sym (taken_below m bound k below) ∙ free),
      λ j l u.
          sym (taken_below m bound j (omega (arith, u, below))) ∙ before j (omega (arith, l)) u,
      saved save m name domain now k,
    )
