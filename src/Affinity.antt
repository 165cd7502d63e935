-- ===== src/Affinity.antt =====
-- affinity.h: the processor that a thread of a benchmark is bound to, for each host it knows.
use llheap.Prelude.{
  ℕ, ◌+◌, ◌*◌, ◌/◌, ◌%◌, ◌^◌, ◌<◌, ◌-◌, ◌≡◌, ◌≢◌, refl, sym, true, arith, Option, some, none, ltb,
  ◌==◌, if◌then◌else◌, ==_iff,
}

-- The hosts with constants of their own, and `unknown` for all others.
pub data HostName : Type 0 where
  swift java nasus pyke jax algol prolog cfapi1 unknown : HostName

-- `OFFSETSOCK`, `SOCKETS`, `CORES`, `HYPER`
pub record Host : Type 0 where
  pub offset_sock : ℕ
  pub sockets : ℕ
  pub cores : ℕ
  pub hyper : ℕ

abbrev pub host : HostName → Host
host swift = record { offset_sock = 1; sockets = 2; cores = 128; hyper = 1 }
host java = record { offset_sock = 0; sockets = 2; cores = 32; hyper = 1 }
host nasus = record { offset_sock = 1; sockets = 2; cores = 64; hyper = 1 }
host pyke = record { offset_sock = 0; sockets = 2; cores = 24; hyper = 1 }
host jax = record { offset_sock = 1; sockets = 4; cores = 24; hyper = 2 }
host algol = record { offset_sock = 0; sockets = 2; cores = 48; hyper = 1 }
host prolog = record { offset_sock = 0; sockets = 1; cores = 128; hyper = 1 }
host cfapi1 = record { offset_sock = 0; sockets = 1; cores = 4; hyper = 1 }
host unknown = record { offset_sock = 0; sockets = 1; cores = 8; hyper = 1 }

-- `cpu` under `HYPERAFF`: two threads in turn on the two hyperthreads of a core.
abbrev pub hyper_cpu : Host → (tid : ℕ) → ℕ
hyper_cpu h tid =
    (h.offset_sock * h.cores + tid / 2 + (if tid % 2 == 0 then 0 else h.cores * h.sockets)) % 2 ^ 32

-- `cpu` under `LINEARAFF`
abbrev pub linear_cpu : Host → (tid : ℕ) → ℕ
linear_cpu h tid =
    (tid
      + (if ltb tid h.cores
          then h.offset_sock * h.cores
          else if ltb h.hyper 2
          then h.offset_sock * h.cores
          else h.cores * h.sockets))
    % 2 ^ 32

-- `HYPERAFF` is the default, and not supported on the hosts from `algol` on.
unfoldable pub cpu_of : HostName → (tid : ℕ) → ℕ
cpu_of swift tid = hyper_cpu (host swift) tid
cpu_of java tid = hyper_cpu (host java) tid
cpu_of nasus tid = hyper_cpu (host nasus) tid
cpu_of pyke tid = hyper_cpu (host pyke) tid
cpu_of jax tid = hyper_cpu (host jax) tid
cpu_of algol tid = linear_cpu (host algol) tid
cpu_of prolog tid = linear_cpu (host prolog) tid
cpu_of cfapi1 tid = linear_cpu (host cfapi1) tid
cpu_of unknown tid = linear_cpu (host unknown) tid

-- `affinity`: the processor that the thread is bound to, or none when the call of
-- `pthread_setaffinity_np`, here `set`, fails and the program is aborted.
unfoldable pub affinity : (set : ℕ → ℕ) → HostName → (tid : ℕ) → Option ℕ
unfolding cpu_of
affinity set name tid = let cpu = cpu_of name tid in if set cpu == 0 then some cpu else none

-- The processors of a host, with two hyperthreads to a core where both are used.
abbrev hyper_processors : Host → ℕ
hyper_processors h = 2 * (h.cores * h.sockets)

abbrev linear_processors : Host → ℕ
linear_processors h = h.cores * h.sockets

abbrev pub processors : HostName → ℕ
processors swift = hyper_processors (host swift)
processors java = hyper_processors (host java)
processors nasus = hyper_processors (host nasus)
processors pyke = hyper_processors (host pyke)
processors jax = hyper_processors (host jax)
processors algol = linear_processors (host algol)
processors prolog = linear_processors (host prolog)
processors cfapi1 = linear_processors (host cfapi1)
processors unknown = linear_processors (host unknown)

-- Those of the sockets from `OFFSETSOCK` on.
abbrev pub capacity : HostName → ℕ
capacity name = let h = host name in processors name - processors name / h.sockets * h.offset_sock

cpu_of-distinct :
    (name : HostName) (s t : ℕ)
    → s < capacity name
    → t < capacity name
    → s ≢ t
    → (cpu_of name s < processors name) × (cpu_of name s ≢ cpu_of name t)
unfolding cpu_of
cpu_of-distinct swift s t hs ht ne = ground arith
cpu_of-distinct java s t hs ht ne = ground arith
cpu_of-distinct nasus s t hs ht ne = ground arith
cpu_of-distinct pyke s t hs ht ne = ground arith
cpu_of-distinct jax s t hs ht ne = ground arith
cpu_of-distinct algol s t hs ht ne = ground arith
cpu_of-distinct prolog s t hs ht ne = ground arith
cpu_of-distinct cfapi1 s t hs ht ne = ground arith
cpu_of-distinct unknown s t hs ht ne = ground arith

-- On each host, if threads can be bound to all of its processors: two different threads, whose
-- numbers are below the number of processors of the sockets from `OFFSETSOCK` on, are bound to two
-- different processors of the host.
pub affinity_lem :
    (set : ℕ → ℕ) (name : HostName) (s t : ℕ)
    → ((cpu : ℕ) → cpu < processors name → set cpu ≡ 0)
    → s < capacity name
    → t < capacity name
    → s ≢ t
    → (c : ℕ) × (d : ℕ) × (affinity set name s ≡ some c)
      × (affinity set name t ≡ some d)
      × (c < processors name)
      × (d < processors name)
      × (c ≢ d)
unfolding affinity
affinity_lem set name s t able hs ht ne =
    let (here, apart) = cpu_of-distinct name s t hs ht ne in
    let (there, _) = cpu_of-distinct name t s ht hs (λ e. ne (sym e)) in
    let bound : (set (cpu_of name s) == 0) ≡ true = (==_iff _ 0).1 (able _ here) in
    let bound' : (set (cpu_of name t) == 0) ≡ true = (==_iff _ 0).1 (able _ there) in
    (cpu_of name s, cpu_of name t, rw bound refl, rw bound' refl, here, there, apart)
