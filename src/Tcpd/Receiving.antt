-- ===== src/Tcpd/Receiving.antt =====
-- The main loop of final/tcpd.c: the sockets that receive over any number of rounds.
use cse5462_network_programm.Base.{inl, inr, inl, inr}
use cse5462_network_programm.Tcpd.{Tcpd}
use cse5462_network_programm.Tcpd.Keeps.{Keeps}
use cse5462_network_programm.Tcpd.Rounds.{Rounds}
