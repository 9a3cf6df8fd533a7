-- ===== src/Setup/Tests.antt =====
-- Programs that open their sockets, and the theorems at concrete answers.
use network.Prelude.{◌≡◌, refl, true, false, none, some}
use network.Outcome.{ok}
use network.Setup.{Answers, serv_socket, clit_socket, make, bind, unlink, connect, checked}
use network.Setup.Servers.{
  open_select, open_table, open_poll, open_processes, open_threads, open_edge, dial_local,
}
use network.Setup.Listening.{ListensOrExits, servers_listen}

abbrev fine : Answers
fine = record {
  created = some 3;
  reusing = true;
  bound = true;
  listening = true;
  connected = true;
  path_left = true;
}

abbrev no_listen : Answers
no_listen = record fine { listening = false }

-- A path that an earlier run left is removed first.
dial_run :
    dial_local fine
    ≡ ok (record {
      fd = 3;
      reuse = false;
      address = some clit_socket;
      backlog = none;
      peer = some serv_socket;
    })
unfolding dial_local make bind unlink connect checked
dial_run = refl

servers_listen_example :
    ListensOrExits fine 6666 (open_select fine)
    × ListensOrExits fine 6665 (open_table fine)
    × ListensOrExits fine 6666 (open_poll fine)
    × ListensOrExits fine 9995 (open_processes fine)
    × ListensOrExits fine 9995 (open_threads fine)
    × ListensOrExits fine 6665 (open_edge fine false)
servers_listen_example = servers_listen fine false
