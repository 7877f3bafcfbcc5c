-- ===== src/Lib.antt =====
-- pointerpro-animate: a library that keeps sprites on canvases in layers, and a server through
-- which several clients work on shared canvases by lines of text.
--
-- The parts of the program and their models:
--
-- * libanimate/animate.c and types.h. A canvas has a doubly linked list of placements, its head
--   the top layer. Animate.antt has the structures (struct sprite, sprite_placement, canvas) on an
--   explicit heap: an address is a number, NULL is 0, and `none` is undefined behaviour, that is
--   an access through NULL or to what is not allocated. Animate/Layers.antt has the functions
--   animate_create_canvas, animate_place_sprite, animate_placement_up, _down, _top and _bottom,
--   animate_destroy_placement, animate_set_animation_params, animate_destroy_canvas and
--   animate_frame_size_bytes under their names without the prefix. Animate/Focus.antt says what a
--   well-formed canvas is (IsCanvas, with the list of its layers) and how it looks from one of its
--   placements, Animate/Apart.antt lemmas on such lists, Animate/Spec.antt what each operation
--   means on the list; the other files under Animate/ take the operations apart. The loop of
--   animate_destroy_canvas runs on fuel, for which one more than the number of placements is
--   enough.
-- * libanimate/animate.c, animate_generate_frame: Frame.antt, on the same heap, with the
--   operations on double as an argument (Doubles) and the frame buffer as a list of pixels.
--   Frame/Paint.antt says what a drawing does to each pixel, Frame/Points.antt, Frame/Pixels.antt
--   and Frame/Sprites.antt what a sprite does, Frame/Fill.antt the background, Frame/Turns.antt
--   and Frame/Topmost.antt the layers. The loop over the placements runs on fuel, for which one
--   more than their number is enough.
-- * animate-platform/session.c and shared.h, client_session_t. Workers finish the requests of a
--   client in any order; send_ordered_response (Session.antt) holds responses back until they are
--   due. The descriptor fd_s2c is the list of texts written to it while the client is connected:
--   disconnect_client closes it, and a later write reaches nobody. What the allocator answers is
--   an argument. Its loop runs on fuel, for which the length of the array is enough.
--   Session/Order.antt has the invariant, Session/Delivery.antt sequences of calls.
-- * animate-platform/animate_server.c, the work queue: Queue.antt has queue_push and queue_pop on
--   tasks at addresses, Queue/Chain.antt the list of jobs that a queue stands for,
--   Queue/Order.antt what the two do to it.
-- * animate-platform/animate_server.c, the main loop where a client's pipe is readable, and
--   disconnect_client of session.c: Input.antt. Input/Stream.antt has the lines that a text stands
--   for, Input/Chunks.antt any number of reads, Input/Delivery.antt the way from the lines to the
--   answers. The loop over the lines runs on fuel, for which the number of bytes is enough. Bytes
--   are numbers.
-- * animate-platform/rpc_handlers.c, handle_login, and session.c, valid_authorised_username:
--   Users.antt, with fgets and sscanf; the file users.txt is its bytes. Their loops run on fuel,
--   for which the length of the file is enough. Users/Agree.antt compares the two, Users/Scan.antt
--   and Users/Print.antt have a file that is written line by line.
-- * animate-platform/rpc_handlers.c, handle_barrier: Barrier.antt, the handler up to its wait, and
--   a step relation of the threads at the barrier of one canvas, while the number of its users who
--   are logged in stays the same; each call of it carries the round in which it arrived.
--   Barrier/Rounds.antt has its invariant, Barrier/Stall.antt a run that goes wrong.
-- * animate-platform/rpc_handlers.c, handle_generate: Generate.antt. What the host answers is an
--   argument (Host), and what the server writes to files and runs in the shell is a list of
--   outputs in its state. Generate/Frames.antt has the loop over the frames.
-- * animate-platform/animate_server.c, process_rpc_command and a round of worker_thread_routine:
--   Dispatch.antt. Dispatch/Faults.antt lists what can be undefined in a command,
--   Dispatch/Handlers.antt and Dispatch/Videos.antt take the handlers through the invariant of
--   Rpc/Room.antt, Dispatch/Answers.antt through their responses, Dispatch/Ends.antt has a command
--   as a whole, and Dispatch/Safe.antt the states that a server reaches. Dispatch/Outbox.antt says
--   that a command leaves the session's responses alone, and Dispatch/Worker.antt has the rounds
--   of any number of workers for one client. A command that puts its thread to sleep at a barrier
--   has the result `ok` there; the worker ends its round when the thread has passed.
-- * animate-platform/animate_server.c, the table active_sessions in the main loop, and
--   cleanup_inactive_sessions of session.c: Poll.antt. A session is at an address of a heap, from
--   which the clean-up frees it; what poll, kill, read, realloc and malloc answer, and what the
--   workers do while poll waits, are arguments. Poll/Compact.antt takes the loop of the clean-up
--   apart, which runs as often as there are sessions, Poll/Cleanup.antt has what it leaves,
--   Poll/Reads.antt the loop over the descriptors, Poll/Rounds.antt a round of the main loop,
--   Poll/Accept.antt a new client, Poll/Reach.antt and Poll/Safe.antt the states that the table
--   reaches, Poll/Stale.antt the positions that the round keeps over the clean-up, and
--   Poll/Tasks.antt the tasks that name a session.
-- * animate-platform/animate_client.c, the loop over the lines of the input: Client.antt. What
--   read gives for each response is an argument. The loop runs on fuel, for which the length of
--   the input is enough. Client/Login.antt and Client/Welcome.antt have the answers to a Login,
--   Client/Lines.antt one line and Client/Dialogue.antt many, Client/Printed.antt the text of a
--   dialogue, and Client/Session.antt the whole session with the server's reads.
-- * animate-platform/registry.c and shared.h: the global lists of canvases, sprites and
--   placements, with the functions of registry.c, in Registry.antt; lemmas in Registry/Lookup.antt
--   and Registry/All.antt.
-- * animate-platform/rpc_handlers.c. Rpc.antt has the state of the server, the early returns and
--   the reading of arguments; Rpc/Canvas.antt handle_create_canvas, handle_destroy_canvas and
--   handle_share_canvas; Rpc/Sprite.antt handle_create_rectangle, handle_create_circle,
--   handle_create_sprite and handle_destroy_sprite; Rpc/Placement.antt handle_place_sprite,
--   handle_set_animation_params, handle_placement_up, _down, _top and _bottom and
--   handle_destroy_placement. A handler is one step: its critical sections are not interleaved
--   with those of another. Rpc/After.antt has the rules for invariants of handlers, Rpc/Nodes.antt
--   the invariant of canvas nodes, Rpc/Room.antt that for handle_share_canvas, Rpc/Sharing.antt,
--   Rpc/Release.antt, Rpc/Leaving.antt, Rpc/Access.antt and Rpc/Placing.antt the rights of users,
--   and Rpc/Handles.antt the way of a handle from an answer to a later command.
--
-- The handlers take libanimate as an interface (Library.antt), since its sprites are created and
-- destroyed by code that is not in the repository. Linked.antt fills the interface with the
-- functions of libanimate/animate.c, the missing ones being arguments, and Linked/Layers.antt
-- takes commands from their text to the layers of a canvas. Text.antt has the functions of the C
-- library that the handlers call: strcmp, strtok_r, strtol, strtoull and the printing of a number,
-- which Text/RoundTrip.antt reads back. Whether malloc and realloc give memory, and which users
-- are authorised, are arguments. Base.antt has what the modules share, Tests.antt concrete runs.
--
-- Not modelled: what the operations on double compute; the order of the locks and the interleaving
-- of handlers; the signals, the files of the FIFOs, and the start-up of the server and the client;
-- the memory of the responses of a session that is freed. A failure of strdup in
-- handle_share_canvas is not modelled either. The colour helpers of libanimate/animate.h have no
-- caller in the program, and its sprites are created by code that is not in the repository.
pub mod Base
pub mod Text
pub mod Registry
pub mod Library
pub mod Rpc
pub mod Session
pub mod Users
pub mod Input
pub mod Queue
pub mod Barrier
pub mod Animate
pub mod Frame
pub mod Client
pub mod Dispatch
pub mod Generate
pub mod Linked
pub mod Poll
pub mod Tests
