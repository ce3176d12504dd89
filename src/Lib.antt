-- ===== src/Lib.antt =====
-- Verification library of the Arduino core for the Raspberry Pi.
--
-- The core gives a sketch the Arduino interface on a Linux board: C functions that store to the
-- peripheral registers of the BCM2835, and C++ classes above them. A sketch sets and reads pins,
-- talks to chips over the serial buses, and prints to and reads from streams. The streams and the
-- bus object keep their bytes in buffers, which a thread or a transfer fills.
--
-- Parts, with the files of the repository:
--   Machine             the registers by address, and the trace of stores and waits
--                       (cores/piduino/bcm2835_registers.h)
--   Fifo, Cbuf          the bounded queue, and the circular buffer that implements it: Cbuf/Ops has
--                       the single calls, Cbuf/Run the sequences of calls (cores/piduino/cbuf.cpp)
--   Gpio                pinMode, digitalWrite, digitalRead (cores/piduino/wiring_digital.c)
--   Interrupts          the handlers of the pins and the pass of the task that starts them
--                       (cores/piduino/wiring_int.c): Interrupts/Scan has one pass,
--                       Interrupts/Edges the edges that it reports, and Interrupts/Calls the
--                       states that calls and passes reach
--   Pulse               pulseIn (cores/piduino/wiring_pulse.c), and
--                       delayMicroseconds (cores/piduino/wiring.c)
--   Shift               shiftOut and shiftIn over the pins (cores/piduino/wiring_shift.c)
--   Pwm                 analogWrite and its clock (cores/piduino/wiring_pwm.c)
--   I2c, Ids, Wire      the transfers of the serial controllers (libraries/Wire/utility/twi.c and
--                       cores/piduino/wiring_ids.c) and the bus object (libraries/Wire/Wire.cpp)
--   Spi                 the other serial bus (libraries/SPI/SPI.cpp): Spi/Chip has a chip on it, and
--                       Spi/Session a transaction
--   Clock               the DS3231 chip behind the bus object (libraries/DS3231/DS3231.cpp)
--   Dht                 the humidity sensor: the waits, the times of the pulses, and the numbers
--                       that they stand for (libraries/DHT22)
--   Lcd                 the display (libraries/NOKIA_LCD): Lcd/Bytes has the bytes on the pins, Lcd
--                       the calls, Lcd/Bus a receiver on the wires, Lcd/Words what each call is to
--                       send, Lcd/Transmit, Lcd/Calls and Lcd/Begin that it does, Lcd/Pixels and
--                       Lcd/Cursor the buffer and the cursor
--   Numeral             what a numeral in a base is, apart from any code
--   Noniso, Print       numbers to text (cores/piduino/stdlib_noniso.cpp, cores/piduino/Print.cpp)
--   Stream              text to numbers, and searches, with timeouts (cores/piduino/Stream.cpp)
--   Ip                  addresses (cores/piduino/IPAddress.cpp)
--   Text                the class String (cores/piduino/WString.cpp)
--   Items               the linked list of strings, over a heap (cores/piduino/StringArray.h):
--                       Items/Chain, Items/Unlink and Items/Refine have the single methods,
--                       Items/Calls the sequences of calls
--   Udp                 datagrams (libraries/Bridge/src/BridgeUdp.cpp): Udp/Receive has the received
--                       side over a circular buffer, Udp/Send the sent one
--   BridgeClient        a connection (libraries/Bridge/src/BridgeClient.cpp)
--   BridgeServer        the server (libraries/Bridge/src/BridgeServer.cpp) over the heap of Items:
--                       BridgeServer/Cleanup has the clients that are deleted, BridgeServer/Change
--                       and BridgeServer/Idle the other loops over the list, BridgeServer/Calls and
--                       BridgeServer/Send the methods
--   Process             a command in a child of the program (libraries/Bridge/src/Process.cpp), with
--                       its parameters in the linked list of Items: Process/Run has the command,
--                       Process/Polls and Process/Returns a run of it, Process/Threads its thread
--                       beside the sketch, and Process/Child the descriptors of the child
--   HttpClient          requests by the program curl, over Process
--                       (libraries/Bridge/src/HttpClient.cpp): HttpClient/Commands has the
--                       command lines, HttpClient/Requests what becomes of them
--   FileIo              files and directories (libraries/Bridge/src/FileIO.cpp)
--   Tty                 the input of a terminal (libraries/TTY/TTY.cpp)
--   Random              map and the ranges of random numbers (cores/piduino/WMath.cpp)
--   Registers           the mapping of the registers (cores/piduino/wiring.c)
--   Sketch              the two threads of the program (cores/piduino/wiring_main.cpp)
--   Uart                the serial port over a circular buffer (cores/piduino/HardwareSerial.cpp):
--                       Uart/Laws has a pass of the check thread, Uart/Calls the passes and calls
--                       in any order
--   Monitor             the console: the socket of the IDE (cores/piduino/idemonitor.c), the
--                       terminal (cores/piduino/piconsole.c) and the stream over both
--                       (cores/piduino/Console.cpp)
--   Prelude             lists as arrays, bits and words, and signed numbers
--
-- Correspondence. A function of the source is a definition with its name in lower case and
-- underscores (digitalWrite is digital_write); a method takes and returns the state of its object.
-- State is passed explicitly: a record for the static variables or the object, and a Machine for
-- the registers. A register that only the program changes reads back what was stored there. What
-- the hardware or the system supplies is an argument: level and status words, bytes that come in,
-- what a system call or the allocator returns. An int that is a byte or -1 is an option or an
-- integer. Words wrap at their width where the source's types do. A fault (a division by zero, a
-- store outside an array) is `none`.
--
-- Loops. A polling loop recurs on the list of the words or samples that it polls, and is `none`, or
-- `waiting`, if they run out: the answer has then not come yet. The loops that convert numbers have
-- fuel 32, the bits of a word, which a base of 2 or more uses up at most; printNumber has as fuel
-- the room of its buffer. The loops of parseInt and findUntil have the slots of the stream and one
-- more. The searches of String recur on the characters, or have their number and one more as fuel.
-- The loops over the changed pins have fuel 66, two steps for each of 32 bits and two more. The
-- methods of the linked list, and those of the process and the server over it, take their fuel as an
-- argument, which is to exceed the number of items.
--
-- Steps. A call of attachInterrupt or detachInterrupt and a pass of the task that looks at the pins
-- are one step each, in any order, and so are the passes of the check thread and the calls at the
-- serial port; the threads that run the handlers are outside the model. The thread of a process and
-- the loop thread of the sketch are parts of a state, and what they do up to the next point where
-- another thread may go on is a step. A run of a process takes what the thread does as an argument:
-- the turns before the store of its start, and those during each delay of the loop that waits.
--
-- Not modelled: floating point (dtostrf, printFloat, parseFloat, toFloat), system calls, signals,
-- the empty methods of Bridge and Mailbox, and the copies of other projects (board revision,
-- EEPROM, Ethernet, SD). A String with NUL characters in it, and one that is appended to
-- itself, are outside the model.
pub mod Prelude
pub mod Fifo
pub mod BridgeClient
pub mod BridgeServer
pub mod Cbuf
pub mod Machine
pub mod FileIo
pub mod Gpio
pub mod Random
pub mod Registers
pub mod Shift
pub mod Numeral
pub mod Noniso
pub mod Print
pub mod Ip
pub mod Stream
pub mod I2c
pub mod Wire
pub mod Ids
pub mod Clock
pub mod Text
pub mod Monitor
pub mod Tty
pub mod Udp
pub mod Uart
pub mod Pwm
pub mod Sketch
pub mod Spi
pub mod Interrupts
pub mod Dht
pub mod Lcd
pub mod Items
pub mod Process
pub mod HttpClient
pub mod Pulse
