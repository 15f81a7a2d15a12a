-- ===== src/Lib.antt =====
-- A verification library of course projects in C on processes, threads and their synchronisation.
--
-- The programs and the modules that model them:
--
-- * shared_mem_and_threads/main.c (Parking): a car park. `main` creates 100 owners (`carOwner`) and
--   two attendants (`carAttendant`). They share two counters in shared memory and eight semaphores
--   (Parking/Lot). Each thread is a state machine that makes one access to what is shared at a time
--   (`owner_step` and `attendant_step` of Parking/Threads, `main_step` of Parking/System); `Step`
--   interleaves them in any order, and `Reach` is what can be reached from the start. The invariant
--   is in Parking/Invariant. A line that is printed goes with the access behind it. `rand` is an
--   argument of an owner's step. A semaphore and a counter are natural numbers without a bound.
-- * socket_threads_semaphores_mutex/queue.h and messageQueue.h (Shop): the queues that the threads
--   of a pide shop share. Shop/Memory is the heap of their nodes, in which a read or write through
--   a pointer that leads to no node is a fault, and `exit` and exhausted memory are results;
--   Shop/Queue and Shop/MessageQueue have one definition for each C function; Shop/Fifo is the
--   first-in first-out list that Shop/Queue/Calls refines, and Shop/MessageQueue/Calls has that of
--   the messages. `malloc` is an argument: the address
--   that it returns, which may be `NULL` or one that was freed before. Loops run on fuel, and the
--   theorems on them say how much is enough: one more than there are nodes.
-- * fifo/main.c (Grades): a shell that keeps students and their grades in text files. Grades/Text has
--   the functions of the C library on strings, Grades/World the files, the terminal and processes,
--   Grades/Students the array that a file is read into by parts of 999 bytes, Grades/Compare the
--   comparisons, Grades/Commands a definition for each command, and Grades/Shell `main`. A command
--   works in a child that the shell waits for, so `fork` runs the child and then goes on. `qsort` is
--   an argument with the contract that C gives it. Whether `fork` and `open` succeed is a parameter;
--   `write`, `close` and `strdup` are taken to succeed. A write behind an array or a buffer, a value
--   that was never set, and an int out of range are faults.
-- * threads_mutex_semaphore_barrier/210104004243_main.c (Copier): a manager that walks through
--   directories and puts the files that it finds into a buffer, and workers that take them out and
--   copy them. Copier/Buffer is the ring, and Copier/Buffer/Ring what list of tasks it holds;
--   Copier/Threads has `worker_step` for `worker` and `manager_step` for the part of `manager` that
--   fills the buffer, one access to what they share at a time; Copier/System interleaves them. The
--   files that the manager finds are an argument there, and Copier/Walk is the walk that finds them,
--   with fuel for one round more than there are directories; Copier/FileCopy is `fileCopy`. A thread in `pthread_cond_wait` may wake at any
--   time, as POSIX allows, and an unlock sets the mutex free whoever has locked it. The mutex of the
--   statistics guards one step. `taken` and `counted` are records of what was taken out and of what was
--   counted, which no code reads. Copier/Statistics has what a worker counts, with the results of `stat`
--   as an argument; the counters have no bound.
-- * socket_threads_semaphores_mutex/server.c (Shop/Kitchen): the shop while it serves one client.
--   `manager_thread`, `cook_thread`, `delivery_thread` and `sender_thread` are state machines
--   (Shop/Kitchen/Manager, Cooks, Riders), and Shop/Kitchen/System interleaves them. What a thread does
--   with a mutex locked is one step, a semaphore is a natural number, and a condition variable is the
--   number of its signals: `pthread_cond_wait` returns on a later one, or without one, as POSIX allows
--   (`Wake`). The queues are the lists that Shop/Queue and
--   Shop/MessageQueue implement. Only the slots of the array that the manager has filled are there,
--   and `blank` is what a slot holds before. `texts` is what each `read` of the manager gives: the
--   client waits for an answer before it sends the next order, so each of its texts is read by itself.
--   The numbers of the riders, `pthread_self() % 100`, are an argument, and
--   `thread_stat_arr` is filled before the riders start. `sent` is a record of what went over
--   the socket. Shop/Kitchen/Cleanup has the cleanups, `dummy_thread`, and the handler of SIGPIPE,
--   with the blocks of `orders` as addresses that are allocated or not.
-- * socket_threads_semaphores_mutex/client.c (Shop/Client): the locations of the customers, on fuel for
--   the rounds of their loop, the orders that are sent, with the answers as an argument, and
--   Shop/Client/Listener, the thread that listens to the shop, on what each `recv` gives. `rand` is
--   an argument.
-- * signals_and_fifo/main.c (Pipes): what the child that adds and the child that multiplies compute from
--   the ints that a fifo gives them before its end, and from the command. `whole` puts them together in
--   the order that the signals of `main` are meant to bring. `rand` is an argument; the child that adds
--   opens and writes its fifos without a failure.
--
-- Not modelled: the copier's paths that are too long for their arrays; in the shop, a cancellation
-- between the steps of the threads, `main` of server and client, the client's keyboard, and the matrix
-- routine, whose result only takes time; the processes that share the two fifos, as steps, with their
-- signals; set-up and release of system resources, signals, sleeping, sockets, and the build files.
pub mod Base
pub mod Shop
pub mod Parking
pub mod Grades
pub mod Copier
pub mod Pipes
