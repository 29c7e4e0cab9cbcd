-- ===== src/Users/State.antt =====
-- The records and the state of control/user.go, and the results of its operations.
use sdl_control.Base.{
  ℕ, ◌*◌, [], String, Bool, true, false, if◌then◌else◌, Option, none, some, ◌≡◌, refl, ap, ◌∙◌,
  Bool-cases, inl, inr, ◌⊎◌,
}
use sdl_control.Base.Text.{◌<>◌}
use sdl_control.Base.Map.{Map}

pub record UmUser : Type 0 where
  pub user_id : String
  pub name : String
  pub domain : String
  pub created_at : ℕ

pub record UmEnrollment : Type 0 where
  pub code : String
  pub user_id : String
  pub expire_at : ℕ
  pub used : Bool
  pub created_at : ℕ

pub record UmDevice : Type 0 where
  pub user_id : String
  pub device_id : String
  pub display_name : String
  pub pub_key_alg : String
  pub pub_key_hex : String
  pub created_at : ℕ
  pub last_bound_at : ℕ

pub record UmPolicy : Type 0 where
  pub user_id : String
  pub group_name : String
  pub user_expire_at_unix_ms : ℕ
  pub user_grace_period_seconds : ℕ
  pub allow_p2p : Bool
  pub allow_relay : Bool
  pub max_devices : ℕ
  pub enrollment_ttl_seconds : ℕ
  pub gateway_ticket_ttl_seconds : ℕ
  pub created_at : ℕ
  pub updated_at : ℕ

pub record UmDeviceTicket : Type 0 where
  pub ticket : String
  pub user_id : String
  pub group_name : String
  pub expire_at : ℕ
  pub used : Bool
  pub created_at : ℕ

pub record UmAuthDevice : Type 0 where
  pub user_id : String
  pub group_name : String
  pub device_id : String
  pub display_name : String
  pub pub_key_hex : String
  pub authed_at : ℕ
  pub auth_expire_at : ℕ

pub record UserManager : Type 0 where
  pub user_seq : ℕ
  pub enrollment_seq : ℕ
  pub users : Map String UmUser
  pub policies : Map String UmPolicy
  pub enrollments : Map String UmEnrollment
  pub device_by_pub_key : Map String UmDevice
  pub authed_devices : Map String UmAuthDevice
  pub device_tickets : Map String UmDeviceTicket

abbrev pub new_user_manager : UserManager
new_user_manager = record {
  user_seq = 0;
  enrollment_seq = 0;
  users = [];
  policies = [];
  enrollments = [];
  device_by_pub_key = [];
  authed_devices = [];
  device_tickets = [];
}

-- The errors, one for each message of the source.
pub data UmError : Type 0 where
  user_id_empty name_empty group_name_empty invalid_ttl user_not_found already_exists
        outside_domain :
      UmError
  code_empty device_id_empty key_empty key_alg_empty : UmError
  enrollment_not_found enrollment_used enrollment_expired bound_to_other : UmError
  fields_required ticket_not_found ticket_used ticket_expired ticket_mismatch : UmError
  device_id_required not_found many_groups : UmError
  not_auth auth_expired key_mismatch : UmError
  display_name_empty display_name_too_long display_name_taken : UmError
  no_random save_failed : UmError

pub data Result {ℓ} (V : Type ℓ) : Type ℓ where
  ok : V → Result V
  err : UmError → Result V

-- The monad of fallible pure steps
infixl 5 ◌>>=◌ ◌>>◌
abbrev pub ◌>>=◌ {ℓ κ} : {V : Type ℓ} {W : Type κ} → Result V → (V → Result W) → Result W
ok value >>= next = next value
err failure >>= next = err failure

abbrev pub ◌>>◌ {κ} : {W : Type κ} → Result (Unit {0}) → Result W → Result W
check >> next = check >>= λ _. next

-- Go on, or return the error if the test holds
abbrev pub reject : Bool → UmError → Result (Unit {0})
reject true e = err e
reject false e = ok tt

abbrev pub or_fail {ℓ} : {A : Type ℓ} → Option A → UmError → Result A
or_fail none e = err e
or_fail (some a) e = ok a

pub Result-cases {ℓ} :
    {A : Type ℓ} → (r : Result A) → ((a : A) × (r ≡ ok a)) ⊎ ((e : UmError) × (r ≡ err e))
Result-cases (ok a) = inl (a, refl)
Result-cases (err e) = inr (e, refl)

-- The result beside the state that the operation leaves.
pub record Outcome {ℓ} (A : Type ℓ) : Type ℓ where
  pub result : Result A
  pub state : UserManager

-- A failure that changed nothing
unfoldable pub fail {ℓ} : {A : Type ℓ} → UserManager → UmError → Outcome A
fail m e = record { result = err e; state = m }

-- saveLocked. `save` is the store, true where it takes the state; without a store it is true
-- everywhere. A refused save leaves the change in memory.
unfoldable pub save_locked {ℓ} : {A : Type ℓ} → (UserManager → Bool) → UserManager → A → Outcome A
save_locked save m a =
    if save m
    then record { result = ok a; state = m }
    else record { result = err save_failed; state = m }

-- The change stays in memory also where the store refuses it.
pub save_locked-state {ℓ} :
    {A : Type ℓ}
    → (save : UserManager → Bool) (m : UserManager) (a : A) → (save_locked save m a).state ≡ m
unfolding save_locked
save_locked-state save m a = elim (Bool-cases (save m)) [ inl s ↦ rw s refl | inr s ↦ rw s refl ]

-- The store has refused the state, or the value is returned.
pub save_locked-result {ℓ} :
    {A : Type ℓ}
    → (save : UserManager → Bool) (m : UserManager) (a : A)
    → (save (save_locked save m a).state ≡ false) ⊎ ((save_locked save m a).result ≡ ok a)
unfolding save_locked
save_locked-result save m a = elim (Bool-cases (save m)) [
  | inl s ↦ inr (rw s refl)
  | inr s ↦ inl (ap save (save_locked-state save m a) ∙ s)
]

unfoldable pub authed_device_key : String → String → String
authed_device_key group_name device_id = group_name <> ("|" <> device_id)

abbrev second : ℕ
second = 1_000_000_000

abbrev pub default_device_auth_ttl : ℕ
default_device_auth_ttl = 30 * 24 * 3600 * second

unfoldable pub generate_basic_policy_locked : String → ℕ → UmPolicy
generate_basic_policy_locked user_id now = record {
  user_id = user_id;
  group_name = user_id;
  user_expire_at_unix_ms = 0;
  user_grace_period_seconds = 24 * 3600;
  allow_p2p = true;
  allow_relay = true;
  max_devices = 32;
  enrollment_ttl_seconds = 15 * 60;
  gateway_ticket_ttl_seconds = 2 * 60;
  created_at = now;
  updated_at = now;
}
