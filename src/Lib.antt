-- ===== src/Lib.antt =====
-- Verification library of the HNet network library (Network/).
--
-- A connection moves packets. An application puts values into a packet (HNetPacketEx, whose
-- Buffer holds them), the packet is closed by Success, tested by Check, encrypted and handed to
-- WSASend; the receiver gathers what WSARecv stores, cuts it into packets, decrypts each and
-- hands it to the application, which reads the values from the packet's Buffer.
--
-- Files, by what they model:
--   Buffer.antt    Network/Common/Buffer.cpp and Buffer.h: class Buffer. `_in`, `_out` and `_trySize` are
--                  `in_pos`, `out_pos` and `try_size`; `_In` is `put`, `_InString` `in_sized`, `_Out` `get`,
--                  `_OutString` `out_string`, `_RollBack` `roll_back`, InSuccess `in_success`, operator=
--                  `assign`. Its children are about writing, reading, strings, whole messages, roll back,
--                  the invariant, and wide strings whose size wraps.
--   Packet.antt    Network/HNetPacket.cpp and HNetPacket.h: HNetPacket and HNetPacketEx, the packed image in
--                  memory and the cast that reads it. Packet/Cipher.antt has HNet::_Encrypt and _Decrypt
--                  (Network/HNet.cpp) with WsaSend's flag, Packet/EndToEnd.antt values from end to end,
--                  Packet/Stream.antt HNetStreamEx, and Packet/Lifetime.antt the references of WsaSend.
--   Recv.antt      HNetIoRecv in Network/HNetIo.cpp with HNetSession::_OnMessage: PrepareBuffer is
--                  `prepare_buffer`, Completed `completed`, Recved `recved`, and a round with WSARecv
--                  `receive`. Recv/Frames.antt is the specification of framing. CompletedJob is `completed_job`,
--                  operator >> `move_to_job`, HNetIoRecvJob `recv_job_excute`. Recv/Single.antt is a single-threaded
--                  server: RecvedJob `recved_job`, `_OnMessageJob` `on_message_job`, HNet::Update `update`.
--   Send.antt      Gathering and HNetIoSend in Network/HNetIo.cpp: Append is `append`, NextBuffer `next_buffer`,
--                  Send `send`, Sended `sended`, `_Send` `post`, Clear `clear`. The ring is written as
--                  three pieces, cut at `_head` and `_tail`. Send/Order.antt has the interleavings,
--                  Send/Job.antt SendJob and SendedJob.
--   Ws.antt        HNetWsPacket in Network/HNetPacket.cpp: Header::Initialize, Size, DataSize and Check are
--                  `ws_initialize`, `ws_size`, `data_size` and `ws_check`, Decrypt `ws_decrypt`, ToPacket
--                  `to_packet`, operator< `ws_to_send`. Ws/Client.antt says what a client sends.
--   Broadcast.antt HNet::_Send with a net id is `send_to`, HNet::_SendAll `send_all`: Sessions, Packet/Cipher and Send
--                  together.
--   Sessions.antt  the session table of Network/HNet.cpp (_CreateSession, _FindSession, _AddSession, _DelSession) and
--                  HNetSession::NewNetId in Network/HNetSession.cpp, by the same names in lower case.
--   Life.antt      the life of an acceptor's session: accept, connect, receive, send, disconnect and release, from
--                  Network/HNetIo.cpp, HNetSession.cpp, HNet.cpp, HNetAcceptor.cpp and Common/RefCount.cpp. A
--                  function is cut where it leaves the thread's own data: the parts are `run_accept_ex`, `run_recved`,
--                  `run_release` and so on. The steps of Life.antt interleave the parts of all threads with
--                  the completions and the calls of the application. Whether a call of the system fails,
--                  and what a completion brings, is left open.
--   Connector.antt the session of an HNetConnector: Network/HNetConnector.cpp with HNetIoConnect and HNetIoReconnect in
--                  Network/HNetIo.cpp. Connect, Disconnect, Reconnect and Completion are `connect_connector`,
--                  `disconnect_connector`, `reconnect_session` and `completion`; one runs after the other, and
--                  nothing is sent: HNetConnector::Send and HNetIoSend are not part of this model.
--   WsRecv.antt    HNetIoWsRecv in Network/HNetIo.cpp: GetWsaBuf, Completed and Preprocess are `get_wsa_buf`,
--                  `ws_completed` and `preprocess`, a series of receives `receive_ws_all`. WsRecv/Frame.antt says what a
--                  frame from a client is, WsRecv/Delivery.antt how frames come in pieces.
--   Sha.antt       class SHA1 in Network/HNetIo.cpp, by the source's names. Sha/Reference.antt is the hash as
--                  RFC 3174 defines it, Sha/Base64.antt the decoding of RFC 4648.
--   StrParser.antt Network/Common/StrParser.cpp: Parsing and KeyValue are `parsing` and `key_value`.
--   Handshake.antt HNetIoWsAccept::_Handshake in Network/HNetIo.cpp, from the request in `_buf` to the response:
--                  `handshake`. Handshake/Request.antt says what a request is, Handshake/Response.antt the answer.
--   Functor.antt   HNetFunctor in Network/HNetFunctor.h and HNetFunctor.cpp: _RegFunction and _CallFunction.
--   Fsm.antt       Network/Common/Fsm.h: Regster, Update, Change and RevertState of Fsm, in lower case.
--   Flag.antt      Network/Common/Flag.cpp: Enable, Disable and IsFlag of Flag.
--   Spin.antt      Network/Common/SpinLock.cpp: Lock and Unlock, cut into their accesses to memory.
--   Jobs.antt      Network/Common/Job.cpp: Post and Execute of JobQueue, and the two Posts of Job, `post_for`
--                  with an id and `post_here` without.
--   Pool.antt      Network/Common/Memory.cpp: Allocate, Deallocate and Fill of MemoryPool, in lower case. Pool/Regions.antt
--                  is about the memory of the nodes, Pool/Places.antt about the stacks that hold them.
--   Filter.antt    Network/Common/Filter.cpp: Register and IsExist of Filter, `register` and `is_exist`.
--   Prelude, Bits  lists as C arrays, machine words, Boolean tests, and exclusive or.
--
-- Numbers are natural numbers with the wrap of USHORT (16 bits) and DWORD (32 bits) written out; sizeof(size_t)
-- is 8 and a wchar_t has two bytes, as on 64-bit Windows. The loop of Completed has fuel: one more than
-- the bytes that are not part of a whole packet yet, since each packet takes four of them at least;
-- the loop of HNetIoWsRecv has the same fuel, a frame taking a byte at least, and so has CompletedJob's.
-- The loop of Send has fuel too, and two turns are enough for a message that is shorter than MAX_SIZE.
-- WSARecv is the environment: it stores between one byte and what the buffer has left. What C++ leaves undefined is
-- `none` where a theorem could depend on it: a memcpy of bytes that overlap in PrepareBuffer and GetWsaBuf, a read
-- behind the terminator in IsExist, and an access outside the array of Flag.
--
-- Not modelled: Windows and sockets; failures of new; message boxes and logs; options and the
-- resolution of addresses; the other tools of Network/Common, which wrap Windows, files and ODBC.
mod Prelude
pub mod Buffer
pub mod Packet
pub mod Bits
pub mod Recv
pub mod Send
pub mod Ws
pub mod WsRecv
pub mod Sessions
pub mod Fsm
pub mod Life
pub mod Sha
pub mod Spin
pub mod Jobs
pub mod Broadcast
pub mod Connector
pub mod Filter
pub mod Pool
pub mod StrParser
pub mod Handshake
pub mod Functor
pub mod Flag
