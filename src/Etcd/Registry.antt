-- ===== src/Etcd/Registry.antt =====
-- modules/etcd/discovery/registry.go. A registration has a context, a number, and a goroutine on it,
-- which goes on one step at a time by what the etcd client and the timers answer. The requests to
-- the client are logged. json.Marshal and the hexadecimal SHA-1 sum are parameters.
pub mod Loops
pub mod Laws
pub mod Races
mod Tests
use yggdrasil_ecosystem.Prelude.{
  ℕ, ◌+◌, ◌*◌, ◌/◌, Bool, true, false, ◌||◌, Option, none, some, List, [], ◌∷◌, ◌++◌, map, ◌==◌,
  nat_eq, if◌then◌else◌, second,
}
use yggdrasil_ecosystem.Prelude.Text.{Text, text_eq, codes}
use yggdrasil_ecosystem.Prelude.Dict.{Dict, lookup, insert, erase, member, modify}
use yggdrasil_ecosystem.Etcd.Records.{InstanceRecord, default_prefix, build_key_value}

pub record RegistryConfig : Type 0 where
  pub client : Text
  pub prefix : Text
  pub ttl : ℕ
  pub keep_alive : Option Bool
  pub retry_interval : ℕ

-- The defaults of NewRegistry.
unfoldable pub with_defaults : RegistryConfig → RegistryConfig
with_defaults cfg = record cfg {
  prefix = if cfg.prefix == [] then default_prefix else cfg.prefix;
  ttl = if cfg.ttl == 0 then 10 * second else cfg.ttl;
  retry_interval = if cfg.retry_interval == 0 then 3 * second else cfg.retry_interval;
}

-- The cancel function is that of the context with the number, or nil.
pub record RegistryEntry : Type 0 where
  pub cancel : Option ℕ
  pub lease : ℕ

-- Where the goroutine of a registration stands. `plain` waits without a keepalive loop, `leaving` is
-- before its deferred delete.
pub data Phase : Type 0 where
  checking granting waiting plain leaving ended : Phase
  keeping putting storing listening : ℕ → Phase

pub record Goroutine : Type 0 where
  pub key : Text
  pub value : Text
  pub phase : Phase

pub data Request : Type 0 where
  grant_request : ℕ → Request
  put_request : Text → Text → ℕ → Request
  keep_alive_request : ℕ → Request
  delete_request : Text → Request
  close_request : Request

pub record Registry : Type 0 where
  pub cfg : RegistryConfig
  pub regs : Dict Text RegistryEntry
  pub is_closed : Bool
  pub cancelled : List ℕ
  pub goroutines : Dict ℕ Goroutine
  pub next_context : ℕ
  pub requests : List Request

unfoldable pub new_registry : RegistryConfig → Registry
unfolding with_defaults
new_registry cfg = record {
  cfg = with_defaults cfg;
  regs = [];
  is_closed = false;
  cancelled = [];
  goroutines = [];
  next_context = 0;
  requests = [];
}

abbrev pub cancel_context : Option ℕ → Registry → Registry
cancel_context none r = r
cancel_context (some context) r = record r { cancelled = context ∷ r.cancelled }

-- Cancelling the entry at a key, if it has a cancel function, and deleting it.
unfoldable pub drop_entry : Text → Registry → Registry
drop_entry key r = elim (lookup key r.regs) [
  | none ↦ r
  | some entry ↦ elim entry.cancel [
    | none ↦ r
    | some context ↦ record r { cancelled = context ∷ r.cancelled; regs = erase key r.regs }
  ]
]

-- The first critical section of Register.
unfoldable pub begin_register : Text → Registry → Registry
unfolding drop_entry
begin_register key r =
    let r' = drop_entry key r in
    record r' {
      regs = insert key (record { cancel = some r.next_context; lease = 0 }) r'.regs;
      next_context = r.next_context + 1;
    }

abbrev pub log : Request → Registry → Registry
log request r = record r { requests = r.requests ++ (request ∷ []) }

abbrev pub no_entry : RegistryEntry
no_entry = record { cancel = none; lease = 0 }

abbrev pub entry_at : Text → Dict Text RegistryEntry → RegistryEntry
entry_at key regs = elim (lookup key regs) [ none ↦ no_entry | some entry ↦ entry ]

-- The critical section that stores a lease; a missing entry is the zero value.
unfoldable pub store_lease : Text → ℕ → Registry → Registry
store_lease key lease r = record r {
  regs = insert key (record (entry_at key r.regs) { lease = lease }) r.regs;
}

-- The lease's time to live in seconds.
abbrev pub ttl_seconds : Registry → ℕ
ttl_seconds r = r.cfg.ttl / second

-- What Grant and Put answer: the lease, none for an error, and whether Put succeeds.
pub record Answers : Type 0 where
  pub granted : Option ℕ
  pub is_put : Bool

-- What other goroutines do to the registry while Register does not hold its lock: between its first
-- critical section and that of putOnce, and after putOnce.
pub record Others : Type 0 where
  pub while_putting : Registry → Registry
  pub after_putting : Registry → Registry

-- putOnce, with what others do meanwhile, and whether it returns without an error.
unfoldable pub put_once : (Registry → Registry) → Answers → Text → Text → Registry → Bool × Registry
unfolding store_lease
put_once meanwhile answers key value r =
    let asked = meanwhile (log (grant_request (ttl_seconds r)) r) in
    elim answers.granted [
      | none ↦ (false, asked)
      | some lease ↦
          let put = log (put_request key value lease) asked in
          if answers.is_put then (true, store_lease key lease put) else (false, put)
    ]

abbrev pub keeps_alive : RegistryConfig → Bool
keeps_alive cfg = elim cfg.keep_alive [ none ↦ true | some b ↦ b ]

abbrev pub first_phase : RegistryConfig → Phase
first_phase cfg = if keeps_alive cfg then checking else plain

-- The goroutine on the context.
abbrev pub start : ℕ → Text → Text → Registry → Registry
start context key value r = record r {
  goroutines =
      insert context (record { key = key; value = value; phase = first_phase r.cfg }) r.goroutines;
}

-- The last critical section of Register.
abbrev pub forget : Text → Registry → Registry
forget key r = record r { regs = erase key r.regs }

-- The goroutine that Register starts on the context, or its way out of an error of putOnce, which
-- cancels the context before it takes the lock again.
unfoldable pub finish_register :
    (Registry → Registry) → ℕ → Text → Text → Bool × Registry → Bool × Registry
finish_register meanwhile context key value (true, r) =
    (true, start context key value (meanwhile r))
finish_register meanwhile context key value (false, r) =
    (false, forget key (meanwhile (record r { cancelled = context ∷ r.cancelled })))

-- Register, with the key and the value of the instance, and what others do while it runs.
unfoldable pub register_at : Others → Answers → Text → Text → Registry → Bool × Registry
unfolding begin_register put_once finish_register
register_at others answers key value r =
    finish_register others.after_putting r.next_context key value
      (put_once others.while_putting answers key value (begin_register key r))

-- Deregister's critical section and its Delete.
unfoldable pub deregister_at : Text → Registry → Registry
unfolding drop_entry
deregister_at key r = log (delete_request key) (drop_entry key r)

-- The loop of Close over the entries.
abbrev pub cancel_all : Dict Text RegistryEntry → List ℕ → List ℕ
cancel_all [] cancelled = cancelled
cancel_all ((key, entry) ∷ regs) cancelled =
    cancel_all regs (elim entry.cancel [ none ↦ cancelled | some context ↦ context ∷ cancelled ])

-- Close, whose body runs once.
unfoldable pub close : Registry → Registry
close r =
    if r.is_closed
    then r
    else log close_request
        (record r { is_closed = true; cancelled = cancel_all r.regs r.cancelled; regs = [] })

module _ (marshal : InstanceRecord → Option Text) (sha1_hex : Text → Text) where
  -- Register, on an instance that may be nil.
  unfoldable pub register : Others → Answers → Option InstanceRecord → Registry → Bool × Registry
  unfolding register_at
  register others answers none r = (false, r)
  register others answers (some inst) r =
      elim (build_key_value marshal sha1_hex r.cfg.prefix inst) [
        | none ↦ (false, r)
        | some (key, value) ↦ register_at others answers key value r
      ]

  -- Deregister, without the error of Delete.
  unfoldable pub deregister : Option InstanceRecord → Registry → Registry
  unfolding deregister_at
  deregister none r = r
  deregister (some inst) r = elim (build_key_value marshal sha1_hex r.cfg.prefix inst) [
    | none ↦ r
    | some (key, value) ↦ deregister_at key r
  ]
