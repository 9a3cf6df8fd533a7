-- ===== src/Reactor/First.antt =====
-- 多路IO转接服务器/epoll反应堆/epoll反应堆.c, the author's version of the loop. Where it differs from
-- test.c: `acceptconn` passes `&g_events`, the first slot, as the argument of the new callback.
-- (Its `eventadd` leaves `op` without a value for a slot in use; each call follows an `eventset`, which
-- sets the status to 0.)
pub mod Stolen
use network.Prelude.Maps.{update, update_self, update_ne, ℕ-cases}
use network.Prelude.{ℕ, Bool, true, false, ◌&&◌, Option, none, some}
use network.Prelude.Tests.{if◌then◌else◌}
use network.Reactor.{
  Event, Callback, null, acceptconn, recvdata, senddata, Reactor, Input, Ready, reading, max_events,
  put, eventset, eventadd, find_free, on_recvdata, on_senddata, is_reading, is_writing,
}

pub on_acceptconn : Input → Reactor → Reactor
on_acceptconn inp r = elim inp.accepted [
  | none ↦ r
  | some cfd ↦
      let r' = record r { opened = update r.opened cfd true } in
      elim (find_free max_events r'.slots 0) [
        | none ↦ r'
        | some i ↦
            if inp.nonblocking
            then eventadd reading i (put i (eventset (r'.slots i) cfd recvdata (some 0) inp.now) r')
            else r'
      ]
]

pub call : Event → Input → Reactor → Option Reactor
call ev inp r = elim ev.call_back [
  | null ↦ none
  | acceptconn ↦ some (on_acceptconn inp r)
  | recvdata ↦ elim ev.arg [ none ↦ none | some i ↦ on_recvdata ev.fd i inp.received inp.now r ]
  | senddata ↦ elim ev.arg [ none ↦ none | some i ↦ some (on_senddata ev.fd i inp.taken inp.now r) ]
]

-- The body of the loop over the ready entries.
pub dispatch : Ready → Input → Input → Reactor → Option Reactor
dispatch e first second r =
    let ev = r.slots e.slot in
    let after = if e.readable && is_reading ev.events then call ev first r else some r in
    elim after [
      | none ↦ none
      | some r' ↦
          let ev' = r'.slots e.slot in
          if e.writable && is_writing ev'.events then call ev' second r' else some r'
    ]
