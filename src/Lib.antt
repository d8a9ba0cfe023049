-- ===== src/Lib.antt =====
-- hkRTOS: firmware for the Raspberry Pi Pico W that reads sensors over I2C, 1-Wire, UART and PIO in
-- FreeRTOS tasks, keeps settings in an EEPROM, draws on an OLED display, sends what it measures to an
-- MQTT server, and opens an access point with a web form while it is being configured. It has a DHCP
-- and a DNS server for that access point, which nothing starts yet.
--
-- Parts. Each sensor has a driver and a task: the task starts a measurement, reads it, decodes it
-- and puts the packet into a queue of the sensor. The drivers of the DHT20, the SGP30, the BME280,
-- the DS1307 clock and the EEPROM share I2C buses, each guarded by a mutex; the DS18B20 has a
-- 1-Wire line of its own; the DHT11 and DHT22 and the PMS5003 are read by DMA. One task collects
-- the packets of the queues, one computes averages, and the display and the network take what it
-- passes on. The two servers answer one datagram at a time, and the credentials that the web form
-- saves in the EEPROM are read at the next start.
--
-- Files.
--   Base       names of the libraries, Boolean tests, casts, C arrays, integers, bits
--   Crc        a checksum as transitions on one byte, and when it tells two messages apart
--   CString    strings of C in buffers
--   F32        the floats of C, as a parameter
--   Bus        the I2C functions of the pico-sdk, as a parameter; a run as the list of operations;
--              Bus/Discipline: the state of the mutex after a run
--   Samples    data for the tests
--   Pio        the state machines of the PIO blocks: the meaning of the assembly language that the
--              .pio files are written in, as the data sheet of the RP2350 gives it;
--              Pio/Leads: runs of a state machine, and what holds during them
--   Dht        include/sensors/dht11_22/dht11_22.h, src/sensors/dht11_22/dht11_22_dma.c (DHT_Read)
--              and dht11_22_rtos.c (vDHT_Task); Dht/Program: src/sensors/dht11_22/dht11_22.pio and
--              what pioasm makes of it; Dht/Program/Signal: what a sensor sends, as its data sheet
--              describes it; Dht/Program/Waveform: a line on which it does
--   Dht20      src/sensors/dht20/dht20.c
--   Sgp30      src/sensors/sgp30/sgp30.c
--   Ds18b20    src/sensors/ds18b20/ds18b20.c
--   OneWire    src/comm/onewire/onewire.c; OneWire/Search: OneWire_SearchROM;
--              OneWire/Devices: what devices on the line answer, as their data sheet describes it
--              OneWire/Program: src/comm/onewire/onewire.pio and what pioasm makes of it;
--              OneWire/Program/Runs: the program as the line that the driver is given
--   Pms5003    src/sensors/pms5003/pms5003.c
--   Ds1307     src/timing/ds1307/ds1307.c; Bcd: include/core/bcd.h
--   Bme280     src/sensors/bme280/bme280.c
--   Drivers    the drivers on one bus, one call after another; Drivers/Interleaving: in tasks that
--              run at once
--   Averages   src/process.c (hkWeightedAverage and its calls in vDataProcessTask)
--   Eeprom     src/storage/24lc01b.c; Eeprom/Memory: the chip, as its data sheet describes it
--   Display    src/display/ssd1327/ssd1327.c and GFX_Display
--   Gfx        src/display/ssd1327/ssd1327_gfx.c; Gfx/Line: GFX_DrawLine;
--              Gfx/Font: include/display/gfx/font_5_7.h
--   Dma        src/comm/dma_irq_handler.c
--   Graph      src/display/gfx/gfx.c (the graphs), include/core/map.h; Saver: its screen saver
--   Ky40       src/input/encoders/ky40.c
--   Pipeline   src/collect.c, src/process.c and src/send.c, a round of each task
--   Wifi       src/comm/network/wifi.c (configHandler and the start of vWifiManagerTask)
--   Modes      src/manager.c (vSystemManagerTask) and the rest of vWifiManagerTask
--   Sockets    the UDP functions of lwIP, as a parameter; a run as the list of operations
--   Heartbeat  include/comm/network/ping.h
--   Mqtt       src/comm/network/mqtt.c, include/comm/network/mqtt.h and src/send.c
--   Dhcp       src/comm/network/dhcp/dhcpserver.c; Dhcp/Service: its socket and its life
--   Dns        src/comm/network/dns/dnsserver.c; Dns/Server: its socket and its life
--
-- Correspondence. A C function `DHT20_InitRead` is `init_read` of Dht20, and so on; the comment at
-- the top of a file names what differs. A struct is a record without the fields that only hardware
-- or FreeRTOS uses; an enum is a data type with the enumerators that the code uses. A function that
-- writes through a pointer returns the new value beside its result. A buffer is a function from
-- indices to bytes, so that reads and writes out of bounds are visible; that its values are bytes
-- is a hypothesis, IsBytes, where it matters. A `poll` is one round of a task's endless loop; what
-- goes to the queue is part of its result. Casts to u8, u16 and u32 are written where C makes them.
--
-- Fuel. EEPROM_WriteBlob, the labels of a DNS question and the options of a DHCP message are loops
-- by fuel: each round takes a byte at least, so the number of bytes that are left is enough.
-- GFX_DrawLine has fuel for dx + dy + 1 rounds, since each round moves the pen in one direction at
-- least. The rounds of OneWire_SearchROM have fuel for one more than there are devices, since each
-- round finds one of them. All other loops have a bound in the source and are by recursion on the
-- rounds left.
--
-- Not modelled: the web pages, the set-up of hardware, the drivers that the configuration in
-- include/config/arm.h leaves out, logging, and the printing of JSON and of the display. The
-- operations of the tasks on a bus are interleaved in Drivers/Interleaving; elsewhere a call runs
-- from its beginning to its end.
mod Base
mod Samples
pub mod Crc
pub mod CString
pub mod F32
pub mod Bus
pub mod Pio
pub mod Dht
pub mod Dht20
pub mod Saver
pub mod Sgp30
pub mod Eeprom
pub mod Display
pub mod Dma
pub mod Dns
pub mod Bme280
pub mod Bcd
pub mod Ds1307
pub mod Pms5003
pub mod Gfx
pub mod Dhcp
pub mod OneWire
pub mod Ds18b20
pub mod Averages
pub mod Drivers
pub mod Sockets
pub mod Wifi
pub mod Pipeline
pub mod Graph
pub mod Ky40
pub mod Modes
pub mod Mqtt
pub mod Heartbeat
