-- ===== src/Lib.antt =====
-- Verification of JunCore, a C++ game server library for Windows: JunCore/JunCommon holds containers
-- and pools, JunCore/JunCore the network core and the game logic built on jobs.
--
-- Common holds lists, Boolean tests, byte memory and little-endian words for all parts.
--
-- RingBuffer models JunCore/JunCommon/container/RingBuffer.h and RingBuffer.cpp, the receive buffer of
-- a session. Its pointers are addresses and `memmove` acts on a memory from addresses to bytes, so that
-- a write outside the buffer would show. The block is aligned to its size of 8192 bytes, as
-- `_aligned_malloc` promises.
--
-- Protocol models JunCore/JunCore/protocol/UnifiedPacketHeader.h and the hash of
-- JunCore/JunCore/core/base.h. A protobuf message is a parameter: its name, its size, and the bytes
-- that `SerializeToArray` writes.
--
-- Session models JunCore/JunCore/network/Session.h and Session.cpp. Calls to the operating system are
-- listed as values, and their answers are arguments.
--
-- Recv models `HandleRecvComplete` of JunCore/JunCore/network/IOCPManager.cpp and `OnPacketReceived` of
-- JunCore/JunCore/network/NetBase.h. Its loop has 1000 rounds, as in the source. Packet handlers belong
-- to the application and are parameters; so is the kernel that fills the buffers of a `WSARecv`, with
-- the hypothesis that it fills them in order.
--
-- ProtocolBuffer models JunCore/JunCommon/network/ProtocolBuffer.h and ProtocolBuffer.cpp on the same
-- memory. The overloads of `<<` and of `>>`, whose bodies are the same text, are one function each of
-- the type of the object.
--
-- JobObject models JunCore/JunCore/logic/JobObject.cpp and `ProcessJobObjects` of JobThread.cpp as a
-- relation between the states of an object and of all threads inside these functions, so that every
-- interleaving of their accesses to shared state is a path of the relation. The queue of
-- JunCore/JunCommon/container/LFQueue.h is taken at its contract: a list of nodes and a counter, which
-- `Enqueue` raises after it has linked a node and `Dequeue` lowers before it takes one off. A job thread
-- is in the loop of `ProcessJobObjects` once at a time. A deletion is counted, and what follows it in the model has no counterpart
-- in the program.
--
-- SendPath models `SendPacket`, `SendAsync` and `SendAsyncImpl` of Session.h and Session.cpp with
-- `HandleSendComplete` of IOCPManager.cpp in the same way. The worker that takes a completion is one of
-- the threads; a send that the system refuses or that transfers no bytes is completed without that
-- handler, as in `RunWorkerThread`. The loop over the array has 200 rounds, as in the source.
--
-- GameWorld models GameObject.cpp, GameScene.cpp and GameObjectManager.cpp of JunCore/JunCore/logic. The
-- jobs of one object run one at a time and in order, so a job is a function of the state. The virtual
-- functions of a game, which may do anything, are only recorded.
--
-- Aes models JunCore/JunCommon/crypto/AES128.h and AES128.cpp. The OpenSSL functions are a parameter, and
-- that they pad by one to sixteen bytes is a hypothesis.
--
-- WindowCounter models JunCore/JunCommon/timer/SlidingWindowCounter.h. Its loop has at most 60 rounds, as
-- in the source.
--
-- OnceInitializer models JunCore/JunCommon/synchronization/OnceInitializer.h, the policies of
-- OnceInitializerPolicies.h and so JunCore/JunCore/network/WSAInitializer.h, which forwards to it, again
-- as a relation over all interleavings of the accesses to shared state.
--
-- Event models JunCore/JunCore/core/Event.h. A handler is a parameter: it makes any calls on the event
-- that it is invoked by. The order in which a map is traversed is a parameter too.
--
-- ConfigParser models JunCore/JunCommon/algorithm/Parser.cpp. A pointer into the block is the list of
-- bytes up to its end, and a read of the empty list is a read outside the block. The loop of `FindWord`
-- has as many rounds as bytes are left and one more, which is enough, since each round moves on; the
-- other loops are recursions on the bytes.
--
-- ThreadPool models JunCore/JunCommon/queue/JobQueue.h in the same way. Its LFQueue is taken as above, with
-- `Dequeue` as one step, its semaphore as a number of permits; a wait for it ends as a step chooses.
--
-- RecursiveLock models JunCore/JunCommon/synchronization/RecursiveLock.h and RecursiveLock.cpp in the
-- same way, over any number of threads.
--
-- Entity models JunCore/JunCore/logic/Entity.h and Component.h. A component is its pointer, its type and
-- its owner; the calls of its virtual functions are recorded.
--
-- ObjectPool models JunCore/JunCommon/pool/LFObjectPool.h with the stamps of JunCore/JunCommon/core/base.h
-- as a relation of the same kind over an explicit heap. Its steps require that a thread tries its exchange
-- before 2^17 exchanges of others have succeeded since its copy, which is what the 17 bits of the stamp can
-- tell apart.
--
-- PacketJob models JunCore/JunCommon/queue/PacketJob.h.
--
-- GameThread models the frames of JunCore/JunCore/logic/GameThread.cpp; the type `float` of the times and
-- its arithmetic are parameters. The loop of the fixed steps has fuel, and ends with any fuel above the
-- number of its rounds, if the rounded subtractions bring the accumulated time below a step at all.
--
-- Connect models PostConnectEx and LoadConnectExFunctions of JunCore/JunCore/network/Client.cpp and
-- HandleConnectComplete of IOCPManager.cpp. What Windows answers is an argument, and the calls out of the
-- process are recorded; Sockets replays them on the list of the open handles. Client models the rest of
-- Client.cpp as a relation on the client: its steps are those of the reconnect thread, of StartClient and
-- StopClient, and of the threads that complete and end connections. Client.Delay has whole milliseconds
-- for the times, and takes it that a sleep is not shorter than asked.
--
-- Accept models PostAcceptEx of JunCore/JunCore/network/Server.cpp and HandleAcceptComplete of
-- IOCPManager.cpp, and Server the rest of Server.cpp, in the same way. OnSessionConnect is a parameter: the
-- application makes and closes no sockets in it. Worker models the worker threads of IOCPManager.cpp over
-- the queue of the completion port, which hands messages out in their order: a worker takes a message in
-- one step and ends its round in another, in any order with those of the other workers and with the
-- operations that complete meanwhile.
--
-- Logger models the ring of JunCore/JunCore/log.cpp as a relation of the same kind, with functions from the
-- numbers of the threads and of the slots. Its states have fewer than 2^32 - 1 messages logged, so that the
-- 32 bits of an index do not come round. LogFile models the rotation of its files as their sizes, while the
-- names stay those of one second.
--
-- User models JunCore/JunCore/network/User.h and the packets of SendPacket in Session.h, NetBase the
-- handlers of NetBase.h; a protobuf type is its name and a parser. NetBase.Delivery puts the send path, the
-- bytes of the packets and the receive path of two programs together.
--
-- Rsa models JunCore/JunCommon/crypto/RSA2048.cpp; the functions of OpenSSL are the fields of a record, and
-- the calls that make a key answer by an argument.
--
-- Not modelled: the calls of the logger, which change no state of the other parts, and what PROJECT.json
-- lists as left out.
pub mod Common
pub mod Accept
pub mod Aes
pub mod Client
pub mod ConfigParser
pub mod Connect
pub mod Entity
pub mod Event
pub mod GameThread
pub mod GameWorld
pub mod JobObject
pub mod LogFile
pub mod Logger
pub mod NetBase
pub mod ObjectPool
pub mod OnceInitializer
pub mod PacketJob
pub mod Protocol
pub mod ProtocolBuffer
pub mod RecursiveLock
pub mod Recv
pub mod RingBuffer
pub mod Rsa
pub mod SendPath
pub mod Server
pub mod Session
pub mod Sockets
pub mod ThreadPool
pub mod User
pub mod WindowCounter
pub mod Worker
