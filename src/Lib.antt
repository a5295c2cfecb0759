-- ===== src/Lib.antt =====
-- The serial port redirector of this library: the native program that listens on a TCP port, opens a
-- serial device for the client that connects, and passes bytes both ways under the Telnet protocol
-- with the COM port control option (RFC 2217).
--
-- The program is library/src/main/jni/sercd.c with its header sercd.h, over the platform functions of
-- unix.c in the same directory, in its Android build: the main function is the native method of
-- SercdService, `exit(code)` is `return code`, and `changeState` tells the Java side. Only the
-- other build takes lock files. Beside it, serial.c opens a serial device for the Java side directly.
--
-- The parts, from the bottom up:
--   Prelude    tests on native numbers, lists of bytes, programs that may fault
--   Telnet     the protocol's constants, sercd.h
--   Buffer     `BufferType`: InitBuffer, BufferLength, BufferRoomLeft, BufferHasRoomFor,
--              IsBufferEmpty, AddToBuffer, GetFromBuffer, GetBufferString, BufferPopBytes
--     Validity, Window, Refine, Chunks   the invariant, the bytes held, the queue, draining
--   State      the file-scope variables and static locals of sercd.c, the two buffers `ToNetBuf` and
--              `ToDevBuf` (`to_net`, `to_dev`), InitTelnetStateMachine; the port's interface
--     Steps                              what a program may add to the client's buffer
--   Send       EscWriteChar, SendStr, SendSignature, SendTelnetOption, SendTelnetInitialOptions,
--              SendBaudRate, SendCPCByteCommand, and the `_bytes` macros beside them
--     Room, Wire                         the room they need, the bytes they write
--   Cpc        HandleCPCCommand
--     Room, Requests, Answer             the room it needs, the table of requests, their answers
--   Iac        HandleIACCommand; Iac/Room
--     Negotiates, Negotiation, Agreement what programs do to the option table, one message, many
--   Redirect   EscRedirectChar
--     Size, Room, Command, Stream        the collected command, bytes outside and inside of a command,
--                                        the data path
--     Escaped, Opening, Request          a command with an escaped parameter, the first bytes of a
--                                        command, a request from its bytes to its answer
--     Overlong                           a signature that fills `IACCommand`; Collected and Fault
--   Speed      `speed_t` constants and rates, unix.c and serial.c; Speed/Law
--   Serial     SerialPort.open and SerialPort.close of serial.c; Serial/Law
--   Lock       HDBLockFile and HDBUnlockFile of unix.c, one system call a step, over a store of files
--     Alone, Race, Stale                 one process, two processes, two that find a stale lock
--   Settings   GetPort* and SetPort* of unix.c on the flags of `struct termios` and on the modem
--              lines, GetModemState, OpenPort, ClosePort, SetBreak, SetFlush, and the port interface
--              filled with them
--     Law, Opening                       settings set and told, opening and closing; Tests runs
--   Log        LogMsg, UnixLogPortSettings, LogPortSettings; Log/Law
--   Select     the timeout and the poll timer of SercdSelect; Select/Law
--     Descriptors, Asked, Reports        SercdSelect over sets of descriptors, what it asks for, the
--                                        events that it reports
--   LoopState  what the loop works on: the states told to the Java side, the results of a round's system
--              calls, the variables of the main function
--   MainLoop   the body of `while (True)` of the main function, IOResultError, and of unix.c
--              DropConnection and the event bits of SercdSelect
--     Post, Connection                   parts in sequence; descriptors and states
--     Sound, Traffic, Safety, Faults     valid states, the parts that move bytes, faults
--     Overrun                            a round whose input leaves no room for its notification
--     Notice, Drain, Tunnel, Delivery    rounds with a notification, output over many rounds, one
--                                        redirector that reads what another one sends, data from
--                                        the client to the device and back
--   Startup    the main function up to its loop, SercdService.exit
--     First, Begun, Run                  the first client's greeting, rounds with buffers that were not
--                                        initialized, the rounds from the start on
--   Java       ConvertToJava and changeState of android.c, and the Java objects of serial.c
--     Port                               the object that is made of a descriptor
--   Restore    what commands, bytes and rounds keep of a port: Restore/Commands, Restore/Bytes,
--              Restore/Loop; and the device of Settings under the loop, Restore/Device
--   Tests      runs at concrete states: Tests/Rounds, Tests/Negotiation, Tests/Platform,
--              Tests/Escaped, Tests/Answers, Tests/Restored, Tests/Selected,
--              Tests/Overrun
--
-- How they interact: the loop asks `requested` which descriptors to wait for; bytes from the device go
-- through `esc_write_char` into `to_net`; bytes from the client go through `esc_redirect_char`, as data
-- into `to_dev`, as commands to `handle_iac_command` and from there to `handle_cpc_command`, which ask
-- the port and answer into `to_net`; both buffers are drained by `get_buffer_string` and
-- `buffer_pop_bytes`.
--
-- A function that changes the file-scope state takes the state and returns `some` of the new one;
-- `none` is a failed `assert` or an access outside of an array. An `unsigned int` is a number with
-- `% 2 ^ 32` written out, a byte is a number. The only sums of bytes are those of GetModemState,
-- written without the wrap-around of an `unsigned char`. `IACCommand` is a list of 255 bytes with an
-- explicit position.
--
-- Parameters of the model:
--   Config     `sizeof(unsigned long)`, the server's signature text, `CiscoIOSCompatible`. A target
--              is taken to be little-endian where `SendBaudRate` reads a number's bytes.
--   Port       the functions of unix.c on the serial port: any functions on any type of handle. Settings
--              fills it.
--   Poll       the results of the system calls of one round: select with the poll timer of the modem
--              state, read, write, accept. `read` is a function of the count it is given. `ReadsFit`
--              says that it returns no more bytes than asked for.
--   SystemCalls, Calls   the system's calls on a serial port in unix.c and in serial.c, `cfmakeraw` among
--              them. `tcsetattr` may fail, on any settings of any device, which unix.c does not look
--              at; `tcgetattr` and the calls that read and set the modem lines are taken not to fail in
--              unix.c. `Takes` says that `tcsetattr` takes given settings, `LeavesMemory` that the calls
--              for a break and a flush do not write to the program's memory. A device has its
--              `struct termios` (`Settings`), of which `InitialPortSettings` keeps a copy, and beside it
--              the lines DTR and RTS (`Outputs`).
--   SelectCalls   `select` and the size of its sets. `Reports` says that it does not fail and leaves what
--              is ready. The main loop works on the events alone (`sercd_select`).
--   Setup      which calls in front of the loop fail.
--   Jvm        the functions of the Java virtual machine that are called, on any types of classes, members,
--              objects and heap. Lookups of classes and members do not depend on the heap.
--              `FileDescriptors` says what it promises of java.io.FileDescriptor.
--   Format     the library's printing and reading of a process number: eleven bytes that are read back as
--              the number. `alive` says which processes live.
-- The loops are over lists of bytes that were read, and a round of the main loop is one function; what is
-- said of many rounds is said of any number of them. `hdb_lock_file` is given eight system calls, and
-- a call that is alone ends within them; `drained` is given a number of rounds, and the number of bytes
-- to write is enough.
--
-- Not modelled: the texts that are made for log lines, but for the log of the port's settings and the
-- copy of a received signature; the `getopt` command line of the build that is not for Android, which
-- does not compile, since the main function calls `changeState` in every build; the socket options,
-- and the address and the port to listen on, which are handed to system calls; the closing of the
-- sockets in SercdService.exit; and the Kotlin classes over the native methods. The start of the main
-- function is that of its first call in a process, in which no descriptor is set. A signature command
-- is handled as for a `CSize` from 6 to 261, within which all those of the parser lie. The main loop
-- keeps the states that it tells as a list; what each call does to the virtual machine is in Java.
pub mod Prelude
pub mod Telnet
pub mod Buffer
pub mod State
pub mod Send
pub mod Cpc
pub mod Iac
pub mod Redirect
pub mod Speed
pub mod Serial
pub mod Lock
pub mod Settings
pub mod Log
pub mod Select
pub mod LoopState
pub mod MainLoop
pub mod Startup
pub mod Java
pub mod Restore
mod Tests
