-- ===== src/Lib.antt =====
-- any_node: a wrapper for ROS nodes whose work is done by timed threads.
--
-- The program's parts. A node (any_node) registers workers (any_worker) with its `WorkerManager`. A
-- `Worker` owns a thread that calls a callback, once or in a loop that a `Rate` paces by the
-- system's clock. `Nodewrap` runs a node: it binds its `stop` to the signals of the process by the
-- static class `SignalHandler` (signal_handler), initializes the node, waits for `stop`, and cleans
-- up. A `ThreadedPublisher` takes messages from callbacks and publishes them from a thread of its
-- own; a `ThrottledSubscriber` passes on at most one message in each time step. Nodes read their
-- settings from the parameter server (param_io).
--
-- The files and the code that each models (paths from the repository's root):
--   Base, with its children: shared names, Boolean tests, integers with C++'s division, lists, and
--     association lists for the maps.
--   Double: the operations on `double` as an interface without laws (Defs), and fractions with
--     infinities and NaN, on which the model runs (Rational).
--   Rate (any_worker/src/Rate.cpp, any_worker/include/any_worker/Rate.hpp and RateOptions.hpp):
--     Timespec has `GetDuration` and `AddDuration`; Options has `RateOptions`; Defs has the class,
--     with `sleep` in the phases `wake`, `check_thresholds` and `advance`; Schedule is about the
--     points in time, Counters about the counters and getters, Messages about the limit of one
--     message in a second.
--     Changes has `sleep` with threads that change the options meanwhile, and its child Drift is about
--     the points in time then.
--   Worker (any_worker/src/Worker.cpp, any_worker/include/any_worker/Worker.hpp, WorkerOptions.hpp
--     and WorkerEvent.hpp): Defs has the class; `run` is `turn_at`, one turn for each position of
--     `Pc`. Stop is about the end of the thread, Restart about `start` and the destructor after
--     `stop`, Reach about all reachable states, Loop about the calls of the callback. Shared has the
--     static variable of the workers that run once, with the steps of their threads: reading the
--     clock, storing the reading, copying the variable.
--   Manager (any_worker/src/WorkerManager.cpp, any_worker/include/any_worker/WorkerManager.hpp):
--     Defs has the class, Overloads the overloads of `addWorker`; Cancel is about the ends of
--     workers, Lookup about what is under each name, Calls about sequences of calls with the
--     threads' turns between them. Mutex has the mutex, which a call keeps while it joins threads:
--     Deadlock is about callbacks that call the manager meanwhile, Hold about the call that has the
--     mutex. Order has the contents of the map, which is
--     unordered, as a quotient; Loops is about the loops over it, Ends about the calls that empty it,
--     Named about those on one name, and Steps about any calls.
--   Signal (signal_handler/src/SignalHandler.cpp and
--     signal_handler/include/signal_handler/SignalHandler.hpp): Defs has the class and the
--     dispositions of the process; Refinement is about `bind` and `unbind` against lists of
--     handlers, Ledger about them against the calls that were made, All about `bindAll` and
--     `unbindAll`, Faults about the handlers that are not called.
--     Mutex has the calls of any threads and the signals that interrupt them, with the mutex and with
--     a step for each write of a call; Serial
--     is about the order of the calls, Deadlock about a signal in a thread that has the mutex.
--   Publisher (any_node/include/any_node/ThreadedPublisher.hpp): Defs has the class as steps that
--     threads take in any order, its own thread, those that publish, and any number that call
--     `sendRos`; Events and Order are about the messages, Wakeup about the
--     condition variable, Running and Draining about the messages that are left in the buffer,
--     Induction carries what each step keeps to runs, Ending is about `shutdown` and `sendRos`.
--   Subscriber (any_node/include/any_node/ThrottledSubscriber.hpp): Defs has the class, Throttle is
--     about the distance between calls; Closing has the subscription and its end.
--   Nodewrap (any_node/include/any_node/Nodewrap.hpp): Defs has the class, with signals through
--     Signal; Lifecycle is about the phases of `execute`, Stopping about `stop`; Life has the
--     constructor and the destructor around it. Wait has `run` and `stop` with the mutex and the
--     condition variable: Wakeup is about notifications, Deadlock about signals that interrupt them,
--     Refines about the steps of Defs that they come to.
--   Node (any_node/src/Node.cpp and any_node/include/any_node/Node.hpp): Defs has the class's
--     methods about workers and `shutdown`; System has a node that runs in `Nodewrap` with the
--     threads of its workers; Reach is about all that such a system can reach, Ending about how it
--     ends.
--   Param (param_io/include/param_io/get_param.hpp and set_param.hpp): Defs has the overloads of
--     `getParam`, with the parameter server as a parameter, Eigen those for Eigen's types, Member
--     `getMember`. Results is about what they give; Reference is a reading of a structure as the
--     list of its leaves, which Parts names, and Flat is about the overloads against it. Store has
--     `setParam` and the methods of Node.hpp that read and write parameters, on a server that keeps
--     what is written.
--   Topic (any_node/include/any_node/Topic.hpp and the methods of
--     any_node/include/any_node/Node.hpp that call it): Defs has the functions as what they ask of
--     ROS, Forward the methods; Names is about the settings of a name. Ros2 has the functions as they
--     are built for ROS 2.
--   Example (any_node_example/src/ExampleNode.cpp and
--     any_node_example/src/any_node_example_node.cpp): Defs has the node and `main`; Init is about
--     what `init` leaves behind, Program about the exit status.
--   Examples in each of these: the theorems at concrete values.
--
-- How it is modelled. A method that reads the clock takes the readings as arguments, and a method
-- returns what it asks of the outside: calls of callbacks, sleeps, messages, scheduling. The
-- verdict of a callback is an input. A call ends in an `Outcome`: it returns, or aborts
-- (`std::terminate`), or waits for ever. Counters of type `unsigned int` wrap around at 2 ^ 32.
-- `thread_.join()` gives the thread six turns, the most that it needs from any position once
-- `running_` is false, and is blocked if that is not enough. A step or a turn is atomic; the places
-- where another thread can come between are where a mutex is released, or where a function of the
-- outside is called.
--
-- The law on doubles that the theorems on the schedule need, that the sign of a difference of clock
-- readings is right (`KeepsSign`), is a hypothesis, which fractions satisfy. ROS's times and
-- durations are a parameter too, with one law (`IsExact` of Throttle), and so is a server that keeps
-- parameters, with the law that it gives what was written last under a key (`IsLawful` of
-- Param.Store).
--
-- What is not modelled: data races on fields that are read and written without a lock, but for the
-- static `timespec` in `Worker::run`, of which reading, storing and copying are steps of
-- Worker.Shared, and the rate's options, of which Rate.Changes has each read on its own; the wait
-- of a callback for the manager's mutex, but for Manager.Mutex (elsewhere its call is one step);
-- rounding; overflow of `time_t`; failures of system calls, which only add messages; the text of
-- messages; ROS, so that the publication of messages is left out. Of any_node for ROS 2, the
-- functions of Topic.hpp are modelled, with the library that reads the parameters as a parameter;
-- the throttled subscription, which is ill-formed there, and `Nodewrap`, which uses ROS 1's names
-- there too, are not.
pub mod Base
pub mod Double
pub mod Rate
pub mod Worker
pub mod Signal
pub mod Manager
pub mod Publisher
pub mod Subscriber
pub mod Nodewrap
pub mod Node
pub mod Param
pub mod Topic
pub mod Example
