-- ===== src/Error.antt =====
-- error.rs: the error type, and `Result` with `?` as `>>=`.
use nomad_rs.Base.{All, ◌↔◌, refl, not, arith, ◌≡◌, Bool, true, false, String, ℕ, List, [], ◌∷◌}
use nomad_rs.Base.Int.{ℤ}

-- The text of a `Validation` error: one constructor for a message, with the values it prints.
pub data Reason : Type 0 where
  job_name_empty : Reason
  priority_out_of_range : ℤ → Reason
  no_datacenters : Reason
  datacenter_name_empty : Reason
  group_name_empty : Reason
  group_count_negative : String → ℤ → Reason
  group_without_tasks : String → Reason
  duplicate_task_name : String → String → Reason
  task_name_empty : Reason
  task_driver_empty : String → Reason
  cpu_negative : ℤ → Reason
  memory_negative : ℤ → Reason
  network_negative : ℤ → Reason
  alloc_id_empty : Reason
  alloc_node_id_empty : Reason
  alloc_job_id_empty : Reason
  alloc_task_group_empty : Reason
  node_id_empty : Reason
  node_name_empty : Reason
  node_datacenter_empty : Reason
  eval_id_empty : Reason
  eval_job_id_empty : Reason
  job_not_found : String → Reason
  bind_addr_empty : Reason
  data_dir_empty : Reason
  tls_path_empty : String → Reason
  tls_file_missing : String → String → Reason
  no_certificates : String → Reason
  no_private_key : String → Reason
  no_ca_certificates : String → Reason

-- The text of a `Config` error.
pub data Setting : Type 0 where
  constraint_left_empty : Setting
  constraint_right_empty : Setting
  unknown_constraint_operand : String → Setting
  affinity_weight_out_of_range : ℤ → Setting
  affinity_left_empty : Setting
  unknown_affinity_operand : String → Setting
  spread_attribute_empty : Setting
  spread_percents_exceed : ℕ → Setting
  restart_interval_zero : Setting
  restart_delay_too_long : Setting
  no_reschedule_attempts : Setting
  max_delay_too_short : Setting
  token_accessor_empty : Setting
  token_secret_empty : Setting
  token_without_policy : Setting
  missing_meta_key : String → Setting
  undeclared_meta_key : String → Setting
  payload_forbidden : Setting
  payload_required : Setting
  port_label_empty : Setting
  duplicate_port_label : String → Setting
  reserved_port_without_value : String → Setting
  variable_namespace_empty : Setting
  variable_path_empty : Setting
  variable_without_items : Setting
  scaling_min_exceeds_max : ℕ → ℕ → Setting
  max_parallel_zero : Setting
  deadline_too_short : ℕ → ℕ → Setting
  deployment_id_empty : Setting
  deployment_job_id_empty : Setting
  healthy_exceeds_placed : ℕ → ℕ → Setting
  drain_without_deadline : Setting
  check_interval_zero : Setting
  check_timeout_out_of_range : Setting
  http_check_without_path : Setting
  service_name_empty : Setting
  volume_name_empty : Setting
  volume_source_empty : Setting
  mount_volume_empty : Setting
  mount_not_absolute : String → Setting
  template_destination_empty : Setting
  template_without_content : Setting
  template_with_two_contents : Setting
  template_without_signal : Setting
  namespace_name_empty : Setting
  namespace_invalid_characters : String → Setting
  artifact_source_empty : Setting
  checksum_malformed : Setting
  invalid_cron_spec : String → Setting
  invalid_cron : Setting
  time_zone_empty : Setting
  empty_argv : Setting
  unknown_command : String → Setting
  unknown_subcommand : String → String → Setting

-- The text of a `Runtime` error.
pub data Fault : Type 0 where
  not_leader : Fault
  queue_poisoned : Fault
  log_poisoned : Fault
  frame_too_large : Fault
  frame_length_overflow : Fault
  connection_closed : Fault
  no_peers_reachable : Fault
  command_missing : Fault
  args_not_array : Fault
  arg_not_string : Fault
  task_already_started : String → Fault
  unsupported_driver : String → Fault
  invalid_timestamp : Fault
  no_upcoming_time : Fault
  metrics_poisoned : Fault
  unexpected_response : Fault
  certificates_unparsed : Fault
  private_key_unparsed : Fault
  ca_certificates_unparsed : Fault
  client_verifier_failed : Fault
  server_certificate_unset : Fault
  client_auth_unset : Fault

-- The kind of a rusqlite error: a constraint of the schema, or anything else.
pub data DatabaseFault : Type 0 where
  constraint other : DatabaseFault

pub data Error : Type 0 where
  io : Error
  serialize : Error
  database : DatabaseFault → Error
  config : Setting → Error
  runtime : Fault → Error
  validation : Reason → Error

pub data Result {ℓ} (A : Type ℓ) : Type ℓ where
  err : Error → Result A
  ok : A → Result A

-- `if bad { return Err(e) }`.
abbrev pub refuse : Bool → Error → Result (Unit {0})
refuse true e = err e
refuse false e = ok tt

-- `?` before the rest of a body, with the value or without it.
infixl 5 ◌>>=◌ ◌>>◌
abbrev pub ◌>>=◌ {ℓ κ} : {A : Type ℓ} {B : Type κ} → Result A → (A → Result B) → Result B
err x >>= rest = err x
ok v >>= rest = rest v

abbrev pub ◌>>◌ {ℓ} : {B : Type ℓ} → Result (Unit {0}) → Result B → Result B
first >> rest = first >>= λ _. rest

-- `for x in xs { f(x)?; }`.
unfoldable pub each {ℓ} : {A : Type ℓ} → (A → Result (Unit {0})) → List A → Result (Unit {0})
each f [] = ok tt
each f (x ∷ xs) = f x >> each f xs

-- `?` in code that changes a state `S`: an error ends it with the state as it is then.
abbrev pub and_then {ℓ κ μ} :
    {S : Type ℓ} {A : Type κ} {B : Type μ} → S × Result A → (A → S → S × Result B) → S × Result B
and_then (s, err e) rest = (s, err e)
and_then (s, ok a) rest = rest a s

pub and_then-keeps {ℓ κ μ ν} :
    {S : Type ℓ} {A : Type κ} {B : Type μ} (P : S → Type ν) (r : S × Result A)
    (rest : A → S → S × Result B)
    → P r.0
    → ((a : A) (s : S) → P s → P (rest a s).0)
    → P (and_then r rest).0
and_then-keeps P (s, err e) rest h k = h
and_then-keeps P (s, ok a) rest h k = k a s h

pub and_then-ok {ℓ κ μ} :
    {S : Type ℓ} {A : Type κ} {B : Type μ} (r : S × Result A) (rest : A → S → S × Result B) (a : A)
    → r.1 ≡ ok a
    → and_then r rest ≡ rest a r.0
and_then-ok (s, err x) rest a h = absurd (ground (arith, h))
and_then-ok (s, ok b) rest a h = ground (arith, h)

-- The loop returns Ok exactly when every call does.
pub each_iff :
    {A : Type 0} (f : A → Result (Unit {0})) (xs : List A)
    → (each f xs ≡ ok tt) ↔ All (λ x. f x ≡ ok tt) xs
unfolding each
each_iff f [] = (λ h. tt, λ h. refl)
each_iff f (x ∷ xs) =
    (λ h. ground (arith, (each_iff f xs).0), λ h. ground (arith, h.0, (each_iff f xs).1 h.1))

pub refuse_iff : (b : Bool) (e : Error) → (refuse b e ≡ ok tt) ↔ (b ≡ false)
refuse_iff false e = (λ h. refl, λ h. refl)
refuse_iff true e = (λ h. ground (arith, h), λ h. ground (arith, h))

pub refuse-not_iff : (b : Bool) (e : Error) → (refuse (not b) e ≡ ok tt) ↔ (b ≡ true)
refuse-not_iff true e = (λ h. refl, λ h. refl)
refuse-not_iff false e = (λ h. ground (arith, h), λ h. ground (arith, h))

pub seq_iff : (a b : Result (Unit {0})) → ((a >> b) ≡ ok tt) ↔ ((a ≡ ok tt) × (b ≡ ok tt))
seq_iff (err x) b = (λ h. ground (arith, h), λ h. ground (arith, h.0))
seq_iff (ok u) b = (λ h. (refl, h), λ h. h.1)
