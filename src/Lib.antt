-- ===== src/Lib.antt =====
-- JammerNetz: the core of the server, the datagrams, and the client's receiving side.
--
-- JammerNetz lets musicians play together over a network. Each client sends small packets of audio
-- to a server; the server puts the packets of a client into a jitter buffer, mixes one packet of
-- every client into an answer for every client, and sends the answers. A client orders the answers
-- in a jitter buffer of its own and plays them. A client also probes how large a datagram the path
-- to the server delivers.
--
-- The files and the code that they model:
--   Base        shared helpers: Boolean tests, lists, 64-bit words (add64, sub64), strings.
--   Platform    the parameters: floating point numbers and JUCE's sample buffers. `BufferLaws` is
--               the documented behaviour of the buffers that some theorems rely on; Samples has
--               an instance.
--   Stats       common/RunningStats.cpp: running mean and variance.
--   Package     common/JammerNetzPackage.h, JammerNetzPackage.cpp: the packets in memory, the
--               fill-in and the padding packets. A `Store` holds the sample buffers, so that two
--               packets can share one, as they do in the code.
--   Queue       common/PacketStreamQueue.cpp: the jitter buffer, used by the server for each client
--               and by the client for the server.
--   Ring        common/RingOfAudioBuffers.h: the ring of the packages sent last.
--   ClientState Server/Source/ClientState.cpp: a client's queue and its connection state.
--   Mixer       Server/Source/ServerMixerCore.cpp: one mix for all clients.
--   Scheduler   Server/Source/ServerMixScheduler.cpp: when to mix, what to pop, whom to mark.
--   Server      Server/Source/AcceptThread.cpp, MixerThread.cpp, SendThread.cpp, Main.cpp: the
--               rounds of the three threads on what they share; Server/Calls and Server/Reach have
--               the single calls that they make, in any interleaving, and Server/Rounds leads the
--               rounds of the mixer's thread and the acceptance of a packet back to them.
--   Wire        common/JammerNetzPackage.cpp, JammerNetzClientInfoMessage.cpp and the .fbs files: the
--               datagrams, written and read. FlatBuffers, the JSON library and the IP addresses are
--               the record `Formats`, with their documented behaviour in `FormatLaws`; Wire/Codec
--               has an instance. A reader returns, throws, or dereferences a field that is left out.
--   Playout     Client/Source/JammerNetzAudioEngine.cpp: the play-out of the audio callback. The
--   RingBuffers the ring buffers of a submodule, as a parameter with its laws.
--   Transmit    Client/Source/AudioTransmitWorker.cpp, JammerNetzAudioEngine.cpp: the way of the
--               microphone's samples to the network.
--   Monitor     Client/Source/JammerNetzAudioEngine.cpp: the monitoring of the own inputs, the tempo.
--   Control     Server/Source/AcceptThread.cpp, Client/Source/DataReceiveThread.cpp, Client.cpp: the
--               control messages at the server, and each message at the client. The JSON library is
--               the record `JsonLibrary`, with its documented behaviour in `JsonLaws`;
--               Control/Datagram has the datagram of a probe, with JUCE's cipher as a parameter.
--   Plugin      Plugin/Source/JammerNetzPluginProcessor.cpp: the audio callbacks against the connect
--               and the disconnect, one atomic access at a time, and the lease of the session.
--   Receive     Client/Source/AudioReceiveWorker.cpp: the client's receiving worker.
--   BufferChoice  Client/Source/AudioCorrectness.h: the audio device's buffer size.
--   Mtu         Client/Source/PathMtuDiscovery.cpp: the search for the largest datagram.
--   Samples     a platform of natural numbers and some packets for the concrete runs; the modules
--               called Tests apply the theorems there.
--
-- A definition has the name of the function that it models, in snake case. State is passed on
-- explicitly: an operation takes the state and returns its result and the state after it. A
-- member function that runs under a mutex is one step. So is a whole round of the mixer's thread,
-- of the sender's and of the receiving worker's, where a file has such a round as one definition:
-- only Server/Calls has what another thread does in the middle of a round. Unsigned 64-bit counters
-- wrap at 2^64; the counters of the statistics, some of them signed in the code, wrap the same way.
-- Time points are numbers of milliseconds that the caller gives. `float` and `double` are one type
-- of the platform.
-- A `std::map` is a list in the order of its keys, a `std::unordered_set` of counters a list.
--
-- The loops are structural recursions, but for the one that throws packets away in the receiving
-- worker: it runs on fuel, three pops for each packet and three more, which is enough since a packet
-- leaves after at most two fill-ins for the gap in front of it.
--
-- Not modelled: the sockets, the encryption but for the size of a probe, the log, the recorder, the
-- user interface, the audio devices and the plugin's editor and settings.
pub mod Base
pub mod Platform
pub mod Stats
pub mod Package
pub mod Queue
pub mod ClientState
pub mod Mixer
pub mod Scheduler
pub mod Server
pub mod Receive
pub mod Wire
pub mod Playout
pub mod RingBuffers
pub mod Transmit
pub mod Control
pub mod Monitor
pub mod Plugin
pub mod Samples
pub mod Ring
pub mod BufferChoice
pub mod Mtu
