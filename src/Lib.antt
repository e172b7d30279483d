-- ===== src/Lib.antt =====
-- Models of the firmware of the RFFE controller, and theorems about them. The controller is an
-- LPC1769 with a FERAM for its configuration, an attenuator, two temperature sensors and a DAC. A
-- bootloader starts the application or first installs an update; the application runs on NuttX and
-- consists of a migration of the configuration at boot, a server of SCPI commands, a temperature
-- control and a server that stores a new firmware image.
--
-- Base holds what the other modules share: lists with ranges that are read and written (slice,
-- splice, overlay), machine words as natural numbers with `% 2 ^ 32`, an `|` of words by digits,
-- and integers over the native numbers. Names that a C function has are kept.
--
-- Device: the file calls open, lseek, read, write and close of the target (Device.Os). The drivers
-- are not part of the repository, so the calls are the parameter `Os`; `IsDevice` states what POSIX
-- documents of them for a device with a fixed number of bytes and no fault. Device.Sim is a memory
-- that satisfies these laws, for the examples.
--
-- Config: rffe-app/config_file.c and config_file.h. One definition for every getter and setter,
-- composed of the calls as the code composes them. What differs only in an offset has a shared
-- body (`read_at`, `write_at`, `read_adding`, `write_adding`, `get_pid`, `set_pid`). A number is
-- its bytes. What the code reads before it stores a value there (`ret`, a local buffer, the
-- caller's variable) is an argument, so a theorem holds for whatever the stack holds. Sums in `ret`
-- wrap around at 32 bits (`+int`). A call on
-- the descriptor is written before the test of the descriptor, and its result is not used when
-- that test fails. config_get_mac_addr and its kin are in Config.Fields, the one-byte fields in
-- Config.Modes, the PID constants in Config.Pid, failures of the driver in Config.Errors.
--
-- Config.Spec is what the accessors promise, a record of settings without bytes or offsets;
-- Config.View reads such a record from the bytes of the device, and Config.Refine compares the two
-- over sequences of calls.
--
-- Migrate: rffe-app/config_file_migrate.c. The packed structs are lists of 81 and 128 bytes with
-- the offsets of the source; `itob16` of fixedmath.h is a parameter.
--
-- Commands: rffe-app/scpi_rffe_cmd.c. One definition for every handler, as a function from the
-- state (the context of the parser, the world behind the file calls, the two voltages) to the
-- result and the state. The parser (libscpi), the conversions of numbers, inet_pton, inet_ntoa,
-- ioctl and boardctl are parameters (Commands.Interface). Bodies that differ only in the accessor
-- they call are in Commands.Bodies. `IsBoard` states that calls on other files do not change the
-- FERAM. Commands.Sim is a small parser, for the examples.
--
-- ScpiTable: rffe-app/scpi_tables.c, whose rows name the commands of Commands or the handlers of
-- libscpi. Which headers a pattern matches is a parameter; the first row that matches is taken.
--
-- ScpiServer: rffe-app/scpi_server.c, as far as the count of clients and the status LEDs go. The
-- threads are a list of phases, a schedule is a list of events, a change of the count is two
-- accesses, and a call for the LEDs is one. ScpiServer.Sockets has the sockets: what accept and
-- recv return is the schedule, SCPI_Init and SCPI_Input of libscpi are a parameter, and SCPI_Write
-- (rffe-app/scpi_interface.c) writes to the socket of the client. Whether there is room is left
-- open there, so that a theorem holds for any value of the count, and whether pthread_create makes
-- a thread, a result that the code does not look at. In ScpiServer a client for whom no thread is
-- made is no event, since it changes neither the count nor the LEDs; Startup.Servers has the call
-- alone.
--
-- Board: rffe-board/src. The LEDs of lpc17_40_leds.c with their statics, those of
-- lpc17_40_userleds.c, and in Board.Init board_app_initialize with the lines that select a device
-- (lpc17_40_appinit.c), the watchdog flag (lpc17_40_boot.c) and dac_devinit (lpc17_40_dac.c). The
-- levels of the pins are a function of their numbers, and the drivers of NuttX are what they
-- answer; a path leads to its driver exactly where the result of its registration is not negative.
-- The count of nested handlers is a number without a bound, where the code has an int.
--
-- PidCtrl: rffe-app/pid.c and pid.h. The arithmetic of floats is the parameter `Floats`, of which
-- nothing is assumed but that the limits of a controller are in order. TempControl:
-- rffe-app/temp_control.c, one pass of its endless loop after the other, over the accessors of
-- Config and the controller; a theorem holds for any number of passes. TempControl.Frames is what
-- is written to the DAC: the division by 3.3 and the multiplication by 4095.0 are on doubles,
-- whose operations are the parameter `Conversions`, and `IsRounding` states that they keep the
-- order.
--
-- System: the clients of the SCPI server and the temperature control at once, with the two
-- voltages of rffe-app/rffe_main.c that they share. A schedule is a list of events, each a command
-- of some client or the next part of a pass (read the mode, compute, write either channel). A
-- command is one event, and the reads of the FERAM and of the sensors within a computation are not
-- divided. The voltages that were written to the DAC are kept in a list with their channels.
-- System.Bank is the abstract view of the nine numbers of the configuration, registers that the
-- clients share, and System.Refine its implementation; what each command leaves alone is in
-- Commands.Kept. System.Messages has messages in place of commands: a header goes through the
-- table of rffe-app/scpi_tables.c to its handler.
--
-- Console: rffe-app/rffe_console_cfg.c. One constructor for each subcommand and for each printf; a
-- word of the command line is the codes of its characters. sscanf, inet_pton and inet_ntoa are
-- parameters; what sscanf stores into the MAC address is modelled byte by byte. A missing word is a
-- null pointer that is passed on.
--
-- Startup: rffe-app/rffe_main.c, netconfig.c and cdce906.c. netlib, dhcpc, the transfer over I2C,
-- the shell and the LEDs are parameters; `IsNet` states what netlib and dhcpc do to an interface,
-- `IsApart` that the other calls change neither the FERAM nor the interface, `KeepsFeram` that
-- netlib does not change the FERAM. Startup.Network is netconfig, Startup.Main the start with the
-- settings of the FERAM, Startup.Upgrade the start after a migration. Startup.Servers is the end
-- of rffe_main with what it starts in temp_control.c, fw_update.c and scpi_server.c, as a list of
-- calls.
--
-- FwUpdate: rffe-app/fw_update.c. The results of accept and recv are an input, a list of
-- connections with their outcomes; what the server does to the flash, the socket and the board is
-- a list of actions. The two endless loops end where the input ends.
--
-- Delivery: the two together. The host's RFFEFWUpdate.reprogram (utils/rffe_nuttx_lib.py) is the
-- bytes that it sends, with the length of the file as the fuel of its loop; the actions of the
-- server are performed on the flash of Boot by the parameter `Progmem`, for which `IsProgmem`
-- states what up_progmem_eraseblock and up_progmem_write of NuttX do: block `i` is sector 23 +
-- `i`.
--
-- Boot: bootloader/src/main.c, lpc17_iap.c and start_app.c. The flash is a state behind the four
-- commands of the boot ROM, the parameter `Iap`, with the laws of the LPC17xx user manual for
-- prepare, erase and copy (Boot.Rom, `IsFlash`). A loss of power is a ROM whose commands have no
-- effect after a number of them (Boot.Power): power fails between two commands, not within one.
-- Boot.main is what the function does to the flash; Boot.Console is main as a whole, with the
-- set-up of the registers by Clock, Pincfg and Uart, and the messages.
--
-- Clock: bootloader/src/lpc17_clock.c and lpc17_clock.h. The two registers PCLKSEL0 and PCLKSEL1
-- are a record; the set-up of the PLL is the list of its writes to registers, with the loop that
-- waits for the lock as one entry, since the lock bit is set by the hardware.
--
-- Uart: bootloader/src/lpc17_uart.c. The registers of the set-up are a record, of which the divisor
-- is written only while its access bit is set. The transmitter is a parameter; a wait for it is a
-- recursion on a number of reads, which is enough where the transmitter is free again within so
-- many reads. Pincfg: bootloader/src/lpc17_pincfg.c, on registers by their numbers.
--
-- Not modelled: the threads of NuttX themselves, the callbacks of rffe-app/scpi_interface.c that
-- only print or answer OK, the settings of the SPI bus, what the firmware prints at its start,
-- libscpi, the tools of the build, and the scripts of the host but for reprogram. Recursion is
-- structural throughout: on the list of inputs, of outcomes, of passes, of events, of calls or of
-- turns, or on the number of pages of a copy or of reads of a status. A list stands for any finite
-- run of an endless loop.
pub mod Base
pub mod Device
pub mod Config
pub mod Migrate
pub mod Clock
pub mod Uart
pub mod Board
pub mod Pincfg
pub mod Boot
pub mod ScpiServer
pub mod FwUpdate
pub mod Delivery
pub mod Commands
pub mod ScpiTable
pub mod Console
pub mod Startup
pub mod PidCtrl
pub mod TempControl
pub mod System
