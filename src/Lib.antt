-- ===== src/Lib.antt =====
-- Verification of Reliable-Data-Transfer: a file is sent over UDP by stop-and-wait, by go-back-n or by
-- selective repeat. The sending program cuts the file into segments of 512 bytes (data_managers/
-- DataFeeder), puts each into a packet with a checksum (web_models/), serializes it (utils/serial) and
-- hands it to the socket (utils/socketUtils); a server worker decides which packets go out and when
-- (workers/*/*Server). The receiving program reads packets from the socket, and a client worker
-- (workers/*/*Client) acknowledges them and feeds their data to the file (data_managers/DataSink). An
-- empty packet behind the last segment ends a transfer.
--
-- Files, with the sources that they model:
--   Base               names that all files share; Base/Tests has Boolean tests, casts and `do` over
--                      Option, Base/Lists lists under native lengths, Base/Bits bit operations, and
--                      Base/Maps std::map and std::set as association lists
--   Packet             src/web_models/packet.h, ack_packet.h and packet_utils.cpp. Packet/Checksum and
--                      Packet/Blind say what the checksum sees and what it does not, Packet/Copy what
--                      a copy of the data keeps
--   Serial             src/utils/serial.cpp; Serial/Words and Serial/Datagrams read back what is written
--   FileSystem         src/file_system/; FileSystem/Streams has the laws of reading and
--                      writing, FileSystem/Directories the making of directories
--   DataManagers       src/data_managers/; Feeding, Draining and Reading are about the feeder,
--                      Sinking about the sink and Naming about the name of its file
--   Socket             src/utils/socketUtils.cpp. Socket/Genuine names the packets of the transfer of a
--                      file and what may arrive, Socket/Wire what a server may put on the wire
--   Reception          the loop that the client workers share
--   Run                loops with an early return, for the server workers
--   StopWait/Client, GoBackN/Client, SelectiveRepeat/Client
--                      src/workers/stopWait/StopWaitClient.cpp, goBackN/GoBackClient.cpp and
--                      selectiveRepeat/SelectiveRepeatClient.cpp, the function recv_message.
--                      Each has a child Naming, on the name of the file
--   StopWait/Server, GoBackN/Server, SelectiveRepeat/Server
--                      src/workers/stopWait/StopWaitServer.cpp, goBackN/GoBackServer.cpp and
--                      selectiveRepeat/SelectiveRepeatServer.cpp: send_message with resend_packet,
--                      receive_ack, updateTimer and updateTimers.
--                      The children Heeding are about receive_ack as a whole, and Resending
--                      about updateTimers
--   SelectiveRepeatCc/Congestion, SelectiveRepeatCc/Server
--                      src/workers/selectiveRepeatCC/selectiveRepeatCCServer.cpp: the window with
--                      window_decrease and the parts of receive_ack that are about it, and the worker
--                      around it. Congestion/Trace is about write_congestion_rounds
--   SelectiveRepeatCc/Client
--                      src/workers/selectiveRepeatCC/SelectiveRepeatCCClient.cpp; Client/Room counts the
--                      packets that wait
--   Transfer           a server, a network and a client together
--   Workers            src/workers/WorkerFactory.cpp and the virtual calls of the workers.
--                      Workers/Transfers joins the two workers of a type, Workers/Growing compares the
--                      client workers with an abstract receiver, Workers/Naming keeps the name, Workers/Ending says how they end,
--                      and Workers/Completing follows a transfer to its end
--   Arguments          src/parser/ArgumentParser.cpp; Arguments/Decimals and Arguments/Addresses are
--                      about numbers and addresses, Arguments/Parameters has the two readers
--   Programs           src/client/client.cpp, src/server/server.cpp and src/main/: Programs/Retries the
--                      retry loops, Programs/ClientProgram and Programs/ServerProgram the two programs,
--                      Programs/Requests, Programs/Service and Programs/Fulfilling what passes
--                      between them
--   AppData            src/web_models/app_data.cpp; AppData/Assembling and AppData/Buffering are about
--                      its buffers
-- The children called Tests run the definitions and apply the theorems to concrete inputs.
--
-- How the code is rendered:
--   - A byte is a natural number; casts to uint8_t, uint16_t and uint32_t are remainders, and unsigned
--     sums in 32 bits wrap. The payload's words are read little-endian.
--   - A worker is a record of its fields and of the locals of its loop. A function that changes it
--     returns the new record.
--   - Undefined behaviour, such as a copy beyond an array or erasing from an empty vector, is `none`,
--     and `fault` inside a server's loops.
--     One case depends on memory: SelectiveRepeatServer.cpp:161-164 reads the key of an entry that it
--     has erased, and Host.keeps_freed says whether the key is still there. Where it is not, the
--     selective-repeat server comes to `fault`.
--   - What the kernel does is a parameter. A client gets the list of what its calls of recvfrom bring.
--     A server gets a Host: a state of the world with gettimeofday, the random draw that drops a packet,
--     sendto, recvfrom and FIONREAD as functions of it. The datagrams handed to sendto are recorded.
--   - An output file keeps the name under which it was opened. A write to an open file succeeds: what
--     file_writer.cpp does after a write that fails, on a full disk say, is left out.
--   - Times are numbers of microseconds. The source computes with doubles, which are exact here. In
--     update_remaining_timeout it truncates to whole seconds, which differs from the exact time left
--     only where the clock has been set back by a second or more.
--   - The rounds of the congestion-controlled server, floats in the source, are natural numbers that
--     count half rounds, and the float's loss of precision is left out.
--   - The clients' loops are recursive on the list of receptions. A server's loop can wait for ever, so
--     it is followed for a number of rounds, any number, and `unfinished` is the state where the rounds
--     run out. The rounds are an argument of the definitions; over a network that loses nothing one for
--     each packet of the file and one more are enough. The loops over a worker's own packets are
--     recursive on the list of the packets, and those that empty a map have the size of the map as
--     fuel, which is enough since each round takes an entry out.
--
-- Not modelled: output to the console, addresses, signals, the closing of sockets, the time that a
-- transfer takes, and destructors. Threads and processes do not meet: a child of the server has its own
-- worker, feeder and socket, so it is a function of one request. Reading floats, looking hosts up and
-- the system calls are parameters. A number in the menu is not negative,
-- and a letter in a text is a byte.
pub mod Base
pub mod Packet
pub mod Serial
pub mod Socket
pub mod FileSystem
pub mod DataManagers
pub mod Run
pub mod Reception
pub mod StopWait
pub mod GoBackN
pub mod SelectiveRepeat
pub mod SelectiveRepeatCc
pub mod Transfer
pub mod Workers
pub mod Arguments
pub mod Programs
pub mod AppData
