-- ===== src/Lib.antt =====
-- The gateway of proxy-for-distribution-Server, the service behind it, and what they log with.
--
-- The gateway keeps the servers in the file server_list.json (src/proxy/server_monitor.cc). One of its
-- threads probes the servers and marks them down or up, which rewrites the file and puts a notice
-- into the pipe of each worker process. A worker (include/pool.h) accepts clients, passes their
-- packets on to the servers in turn and the answers back, keeps each request until it is
-- answered, sends it again after a while, and closes clients that are silent. Behind the gateway
-- the service (src/server_service) answers a request by statements to a MySQL database. All of
-- them log through a buffer (src/log).
--
-- Registry.antt models LoadServerList, UpdateServerList, SetServerDown, SetServerUp, LoginServer and
-- LogoutServer as load_server_list and so on, on a Gateway: the file's text, whether it opens, and what
-- was sent into each pipe. jsoncpp is a parameter. Registry/View.antt sees a list as the health of each
-- server.
-- Monitor.antt models a turn of the loop of ActiveDetect as round. Which servers accept a connection is
-- a parameter of a round.
-- Notices.antt models what the main process does on its events: server_socket_read_cb,
-- ListenerClientCallBack, signal_cb, and the messages of type 1 in PassiveDetect; and the way in
-- which a worker takes the notices from its pipe, as one recv for each send. A pipe is all that was
-- sent into it. Each event of the main process is one step. Notices/Registration.antt has the bytes that a server
-- sends to register, as src/server_loginout/server_loginout.cc writes them. Notices/Reading.antt says which servers are there by the notices in a pipe.
-- EventQueue.antt models the rings msg_queue and fin_queue of include/pool.h for any length of the
-- array, of which MSG_QUEUE_LEN is one.
-- Worker/State.antt has the state of a worker process and the ways in which it ends. The memory of events
-- is a function from addresses, with another that says which are allocated. Worker/Clients.antt,
-- Worker/Requests.antt and Worker/Timeouts.antt have the callbacks: pipe_event_CallBack (case 1) is
-- accept_client, client_socket_read_cb from a packet on is client_packet, work_server_socket_read_cb
-- from a packet on is server_packet, check_time_out_cb is check_time_out, empty_count_cb is
-- empty_count, client_event_cb is client_event. Worker/Traces.antt runs them in any order, and
-- Worker/Traces/Process.antt together with the callbacks on the servers. The two
-- loops of check_time_out get the length of the array as fuel, which is more than the entries that a
-- queue can hold.
-- Packets.antt models the packets, a length and a text, as the read callbacks take them out of the bytes
-- of a connection. A turn of their loop takes at least a head, so that the length of the input and
-- one is fuel enough. Worker/Reading.antt runs the loop for client_socket_read_cb and
-- work_server_socket_read_cb, Service/Reading.antt for work_socket_read_cb of
-- src/server_service/thread.cpp. jsoncpp's parser is a parameter of each.
-- Service.antt and its children model src/server_service/view.cpp and controller.cpp: a view is a function
-- of the database's state and of a log of what it did. The loop that repeats a rollback has fuel
-- and fails when it is used up. Service/Protocol.antt is the protocol that the views keep to, and
-- Service/Tickets.antt states what is assumed of MySQL for the sale of tickets, by a session that has the
-- database to itself. Service/Numbers.antt has std::stoi and the printing of integers.
-- Worker/Backends.antt has the connections to the servers, the cases 2 and 3 of pipe_event_CallBack and
-- work_server_event_cb, on the lists m_Serverlist and m_server_info; the callbacks before them see
-- the first list only. Worker/Backends/Start.antt has the connections that run_child makes first.
-- MemoryPool.antt models MemoryPoolAlloc of src/proxy/memorypool.cpp, MemoryPool/Release.antt the other
-- operations. A region has the bytes of its chunks as functions from addresses: the headers, and the
-- pointer at each chunk's end. A list of chunks is the list of their addresses. Each walk of the
-- merge has the region's bytes as fuel, more than it has chunks; the loop that makes the pool grow has
-- the maximum, since each turn adds bytes. malloc is a function of the bytes in use. Its users in
-- the worker take from it that a block which it returns is not in use.
-- BlackList.antt models the slots of Hhei_Ming_Dan of include/structure.h as bytes: the messages of type
-- 2 in PassiveDetect are add, verify_client_ip and empty_heimingdan_cb have their names.
-- DbPool.antt models the queue of ConnectionPool of src/server_service/dbConnectionPool.cpp, with a step for
-- each turn of a thread: produceConnectionTask is produce, getConnection is get_connection, the
-- deleter in it is give_back, scannerConnectionTask is scan_idle.
-- Log/Buffer.antt models the class Buffer of src/log/mini_buffer.cc, its assertions included. Log/Queue.antt
-- models BlockingQueue of src/log/blocking_queue.cc, a step for each operation.
--
-- Times, addresses of memory, sockets and the results of system calls are arguments. Integers that
-- only count are natural numbers; the counter of clients wraps at 32 bits. Not modelled are the
-- log's writer and the HTTP helper; sockets, threads and the programs' main functions are left out as
-- glue.
pub mod Base
pub mod Registry
pub mod Monitor
pub mod Notices
pub mod EventQueue
pub mod MemoryPool
pub mod Packets
pub mod Worker
pub mod BlackList
pub mod Service
pub mod DbPool
pub mod Log
