-- ===== src/Reactor.antt =====
-- The event loop of 多路IO转接服务器/epoll反应堆/test.c: an echo server over epoll, with a callback for
-- each descriptor. The array g_events is a function of the index; the kernel's side is the epoll set
-- (what a descriptor is watched for, and the slot that `data.ptr` points to) and the descriptors that
-- are open. What a system call returns is an input of the callback that makes it.
pub mod Table
pub mod Invariant
pub mod Callbacks
pub mod Accept
pub mod Steps
pub mod Echo
pub mod Reach
pub mod First
mod Tests
use network.Prelude.Maps.{update, update_self, update_ne, ℕ-cases}
use network.Prelude.{
  ℕ, zero, suc, ◌+◌, ◌-◌, ◌%◌, Bool, true, false, ◌&&◌, Option, none, some, List, [], ◌∷◌, ◌++◌,
}
use network.Prelude.Tests.{ltb, leb, ◌==◌, if◌then◌else◌}
use network.Prelude.Lists.{length, set, take, drop, replicate}
use network.Posix.{Answer, got, failed, Sent, sent, refused}

abbrev pub max_events : ℕ
max_events = 1024

abbrev pub buflen : ℕ
buflen = 4096

-- The values that the field `events` takes: 0, EPOLLIN, EPOLLOUT.
pub data Interest : Type 0 where
  idle reading writing : Interest

pub data Callback : Type 0 where
  null acceptconn recvdata senddata : Callback

-- `struct myevent_s`. `arg` is the index of the slot that it points to.
pub record Event : Type 0 where
  pub fd : ℕ
  pub events : Interest
  pub arg : Option ℕ
  pub call_back : Callback
  pub status : ℕ
  pub buf : List ℕ
  pub len : ℕ
  pub last_active : ℕ

-- A slot of the zero-initialised array.
abbrev pub blank : Event
blank = record {
  fd = 0;
  events = idle;
  arg = none;
  call_back = null;
  status = 0;
  buf = replicate buflen 0;
  len = 0;
  last_active = 0;
}

-- What came in and went out on a descriptor.
pub data Io : Type 0 where
  came went : ℕ → List ℕ → Io

pub record Reactor : Type 0 where
  pub slots : ℕ → Event
  pub watch : ℕ → Option (Interest × ℕ)
  pub opened : ℕ → Bool
  pub trace : List Io

-- `eventset(ev, fd, call_back, arg)` at the time `now`.
pub eventset : Event → ℕ → Callback → Option ℕ → ℕ → Event
eventset ev fd call_back arg now = record ev {
  fd = fd;
  call_back = call_back;
  events = idle;
  arg = arg;
  status = 0;
  buf = if leb ev.len 0 then replicate buflen 0 else ev.buf;
  len = if leb ev.len 0 then 0 else ev.len;
  last_active = now;
}

-- `epoll_ctl(EPOLL_CTL_ADD)` fails, and changes nothing, for a descriptor that is watched or closed.
pub ctl_add : Reactor → ℕ → Interest → ℕ → ℕ → Option (Interest × ℕ)
ctl_add r fd events i = elim (r.watch fd) [
  | some w ↦ r.watch
  | none ↦ if r.opened fd then update r.watch fd (some (events, i)) else r.watch
]

-- `eventadd(g_efd, events, &g_events[i])`. With a status that is not 0 the operation is 0, which
-- `epoll_ctl` refuses.
pub eventadd : Interest → ℕ → Reactor → Reactor
eventadd events i r =
    let ev = r.slots i in
    let fresh = ev.status == 0 in
    record r {
      slots =
          update r.slots i (record ev { events = events; status = if fresh then 1 else ev.status });
      watch = if fresh then ctl_add r ev.fd events i else r.watch;
    }

-- `eventdel(g_efd, &g_events[i])`.
pub eventdel : ℕ → Reactor → Reactor
eventdel i r =
    let ev = r.slots i in
    if ev.status == 1
    then record r {
      slots = update r.slots i (record ev { status = 0 });
      watch = update r.watch ev.fd none;
    }
    else r

-- `close(fd)` takes the descriptor out of the epoll set too.
pub close : ℕ → Reactor → Reactor
close fd r = record r { opened = update r.opened fd false; watch = update r.watch fd none }

-- `g_events[i]` is changed in place.
pub put : ℕ → Event → Reactor → Reactor
put i ev r = record r { slots = update r.slots i ev }

-- `ev->len = len; ev->buf[len] = '\0'`, where `buf[len]` is in `buf`.
pub terminate : ℕ → Event → Event
terminate n ev = record ev { buf = set ev.buf n 0; len = n }

-- Whether the zero goes to `buf[4096]`, behind the buffer.
pub overruns : Answer → Bool
overruns (failed e) = false
overruns (got bs) = leb buflen (length bs)

-- What `recvdata` does where it does not write behind the buffer.
pub receive : ℕ → ℕ → Answer → ℕ → Reactor → Reactor
receive fd i (failed e) now r = let r' = eventdel i r in close (r'.slots i).fd r'
receive fd i (got []) now r = let r' = eventdel i r in close (r'.slots i).fd r'
receive fd i (got (b ∷ bs)) now r =
    let data' = b ∷ bs in
    let ev = r.slots i in
    let filled = record ev { buf = data' ++ drop (length data') ev.buf } in
    let r' = eventdel i (put i filled (record r { trace = r.trace ++ (came fd data' ∷ []) })) in
    let ev' = eventset (terminate (length data') (r'.slots i)) fd senddata (some i) now in
    eventadd writing i (put i ev' r')

-- `recvdata(fd, events, &g_events[i])`, where `recv` returns `answer`; `none` is undefined.
pub on_recvdata : ℕ → ℕ → Answer → ℕ → Reactor → Option Reactor
on_recvdata fd i answer now r = if overruns answer then none else some (receive fd i answer now r)

-- `senddata(fd, events, &g_events[i])`, where `send` returns `answer`.
pub on_senddata : ℕ → ℕ → Sent → ℕ → Reactor → Reactor
on_senddata fd i (refused e) now r = let r' = eventdel i r in close (r'.slots i).fd r'
on_senddata fd i (sent zero) now r = let r' = eventdel i r in close (r'.slots i).fd r'
on_senddata fd i (sent (suc n)) now r =
    let ev = r.slots i in
    let r' =
      eventdel i
        (record r { trace = r.trace ++ (went fd (take (suc n) (take ev.len ev.buf)) ∷ []) }) in
    eventadd reading i (put i (eventset (r'.slots i) fd recvdata (some i) now) r')

-- `for(i = 0; i < MAX_EVENTS; i++) if(g_events[i].status == 0) break;` from `i` on, n rounds.
pub find_free : ℕ → (ℕ → Event) → ℕ → Option ℕ
find_free zero slots i = none
find_free (suc n) slots i =
    let rest = find_free n slots (i + 1) in if (slots i).status == 0 then some i else rest

-- What the system calls of one callback return.
pub record Input : Type 0 where
  pub accepted : Option ℕ
  pub nonblocking : Bool
  pub received : Answer
  pub taken : Sent
  pub now : ℕ

-- `acceptconn`: `accept` fails or returns a new descriptor, `fcntl` succeeds or not.
pub on_acceptconn : Input → Reactor → Reactor
on_acceptconn inp r = elim inp.accepted [
  | none ↦ r
  | some cfd ↦
      let r' = record r { opened = update r.opened cfd true } in
      elim (find_free max_events r'.slots 0) [
        | none ↦ r'
        | some i ↦
            if inp.nonblocking
            then eventadd reading i (put i (eventset (r'.slots i) cfd recvdata (some i) inp.now) r')
            else r'
      ]
]

-- `ev->call_back(ev->fd, events[i].events, ev->arg)`; a null callback or argument is undefined, and so is what
-- the callback leaves undefined.
pub call : Event → Input → Reactor → Option Reactor
call ev inp r = elim ev.call_back [
  | null ↦ none
  | acceptconn ↦ some (on_acceptconn inp r)
  | recvdata ↦ elim ev.arg [ none ↦ none | some i ↦ on_recvdata ev.fd i inp.received inp.now r ]
  | senddata ↦ elim ev.arg [ none ↦ none | some i ↦ some (on_senddata ev.fd i inp.taken inp.now r) ]
]

abbrev pub is_reading : Interest → Bool
is_reading idle = false
is_reading reading = true
is_reading writing = false

abbrev pub is_writing : Interest → Bool
is_writing idle = false
is_writing reading = false
is_writing writing = true

-- One entry of what `epoll_wait` returned: the slot, and whether EPOLLIN and EPOLLOUT are set.
pub record Ready : Type 0 where
  pub slot : ℕ
  pub readable : Bool
  pub writable : Bool

-- The body of the loop over the ready entries: the second test sees what the first callback left.
pub dispatch : Ready → Input → Input → Reactor → Option Reactor
dispatch e first second r =
    let ev = r.slots e.slot in
    let after = if e.readable && is_reading ev.events then call ev first r else some r in
    elim after [
      | none ↦ none
      | some r' ↦
          let ev' = r'.slots e.slot in
          if e.writable && is_writing ev'.events then call ev' second r' else some r'
    ]

-- `initlistensocket` for the listening descriptor `lfd`, at the end of the start of the program.
pub initlistensocket : ℕ → ℕ → Reactor → Reactor
initlistensocket lfd now r =
    let r' = record r { opened = update r.opened lfd true } in
    eventadd reading max_events
      (put max_events (eventset (r'.slots max_events) lfd acceptconn (some max_events) now) r')

-- The state before `initlistensocket`: no slot in use, nothing watched; `opened` is what the process
-- has open.
pub boot : (ℕ → Bool) → Reactor
boot opened = record { slots = λ i. blank; watch = λ fd. none; opened = opened; trace = [] }
