-- ===== src/Client/Connect.antt =====
-- Which calls of `init` of class TCPClient return.
use synap_tcp.Socket.Os.{Os}
use synap_tcp.Net.{Net}
use synap_tcp.Client.{Client}
