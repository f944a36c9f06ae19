-- ===== src/Modules/Commands.antt =====
-- Commands for the modules, and the theorems about commands at inputs.
use lora_mqtt.Prelude.{◌≡◌, ◌++◌, refl, false, some, All, length, ◌/◌, arith}
use lora_mqtt.Text.Literal.{codes}
use lora_mqtt.Text.Format.{hex_byte, hex_pad}
use lora_mqtt.Text.Radix.{strtol_in}
use lora_mqtt.Numbers.{uint32_swap_bytes}
use lora_mqtt.Modules.{done, undefined}
use lora_mqtt.Modules.Payload.{snprintf}
use lora_mqtt.Modules.Cursor.{number, hex_bytes}
use lora_mqtt.Modules.Registry.{unwds_modules_list}
use lora_mqtt.Modules.Pins.{umdk_gpio_command, umdk_pwm_command, umdk_switch_command}
use lora_mqtt.Modules.Serial.{umdk_uart_command, umdk_irblaster_command, umdk_hd44780_command}
use lora_mqtt.Modules.Serial.Frames.{passed, umdk_uart_command-umdk_irblaster_command}
use lora_mqtt.Modules.Access.{umdk_pacs_command, umdk_wiegand_command}
use lora_mqtt.Modules.Config.{umdk_config_command, is_number}
use lora_mqtt.Modules.Pulse.{umdk_pulse_command}
use lora_mqtt.Modules.Modbus.{umdk_modbus_command, modbus_request, send_request, write_mult}
use lora_mqtt.Modules.Modbus.Requests.{requests, arguments, bytes_of, umdk_modbus_command-requests}
use lora_mqtt.Modules.Modbus.Bounds.{IsShort, umdk_modbus_command-IsShort}
use lora_mqtt.Modules.M200.{umdk_m200_command}
use lora_mqtt.Modules.M230.{umdk_m230_command}
use lora_mqtt.Modules.Iec61107.{umdk_iec61107_command}
use lora_mqtt.Modules.M230.Tables.{m230_set_holidays, m230_set_schedule}
use lora_mqtt.Modules.M200.Tables.{set_schedule}
use lora_mqtt.Modules.Dali.{umdk_dali_command, dali_words, matching, dali_send, read_argument}
use lora_mqtt.Modules.Dali.Level.{arc_power}

sets_pin : umdk_gpio_command (codes "set 5 1") 200 ≡ codes "45"
unfolding umdk_gpio_command number hex_byte
sets_pin = refl

-- Pin 37 is cleared by the same byte as pin 5.
clears_pins : umdk_gpio_command (codes "set 5 0") 200 ≡ umdk_gpio_command (codes "set 37 0") 200
unfolding umdk_gpio_command number hex_byte
clears_pins = refl

gets_pins : umdk_gpio_command (codes "get all") 200 ≡ codes "80"
unfolding umdk_gpio_command number hex_byte
gets_pins = refl

sets_pwm :
    umdk_pwm_command (codes "pin 3 freq 1000 duty 50 soft 1") 200 ≡ done (codes "010303e832000001")
unfolding umdk_pwm_command hex_byte hex_pad
sets_pwm = refl

-- A name at the end of the text is read past the terminator.
ends_early : umdk_pwm_command (codes "pin") 200 ≡ undefined
unfolding umdk_pwm_command hex_byte hex_pad
ends_early = refl

sets_period : umdk_switch_command (codes "period 12") 200 ≡ codes "000c"
unfolding umdk_switch_command number hex_byte
sets_period = refl

sends_mode : umdk_uart_command (codes "set 9600-8N1") 200 ≡ done (codes "02393630302d384e31")
unfolding umdk_uart_command hex_byte
sends_mode = refl

-- A column of two digits leaves the space before the text in the line.
prints_line : umdk_hd44780_command (codes "print 1 5 Hi") 200 ≡ done (codes "00254869")
unfolding umdk_hd44780_command hex_byte
prints_line = refl

prints_space : umdk_hd44780_command (codes "print 1 15 Hi") 200 ≡ done (codes "002f204869")
unfolding umdk_hd44780_command hex_byte
prints_space = refl

adds_key : umdk_pacs_command (codes "add 1a2b 10") 200 ≡ done (codes "010000000000001a2b000a")
unfolding umdk_pacs_command hex_byte hex_pad
adds_key = refl

-- A key with its highest bit set is cut to the largest signed number.
cuts_key :
    umdk_pacs_command (codes "remove ffffffffffffffff") 200 ≡ done (codes "027fffffffffffffff")
unfolding umdk_pacs_command hex_byte hex_pad number
cuts_key = refl

-- The text has a space between the card and the time.
adds_card : umdk_wiegand_command (codes "add 255 10") 200 ≡ done (codes "fd00000000ff 000a")
unfolding umdk_wiegand_command hex_byte hex_pad
adds_card = refl

enables_module :
    umdk_config_command (unwds_modules_list false) (codes "mod adc enable") 200
    ≡ done (codes "000a01")
unfolding umdk_config_command hex_byte hex_pad
enables_module = refl

-- A number with a prefix is one, and is zero for atoi; `08` is none, as its base is 8.
prefixed_module :
    umdk_config_command (unwds_modules_list false) (codes "mod 0x0a 1") 200 ≡ done (codes "000001")
unfolding umdk_config_command hex_byte hex_pad
prefixed_module = refl

octal_module : is_number (codes "08") ≡ false
unfolding is_number strtol_in
octal_module = refl

sets_counters :
    umdk_pulse_command false (codes "values 10 1 256") 200 ≡ codes "030a0100000000010000"
unfolding umdk_pulse_command hex_byte hex_pad uint32_swap_bytes
sets_counters = refl

writes_registers :
    umdk_modbus_command (codes "write_mult regs 1 10 2 4 1 a0b") 200
    ≡ done (codes "0110001000020400010a0b")
unfolding umdk_modbus_command modbus_request send_request write_mult hex_byte
writes_registers = refl

-- One number less than announced is read past the terminator.
lacks_register : umdk_modbus_command (codes "write_mult regs 1 10 2 4 1") 200 ≡ undefined
unfolding umdk_modbus_command modbus_request send_request write_mult hex_byte
lacks_register = refl

fades : umdk_dali_command (codes "store fadetime 7 group 2") 200 ≡ done (codes "2e0b0785")
unfolding umdk_dali_command dali_words matching dali_send read_argument hex_byte
fades = refl

half : arc_power 50 ≡ some 229
unfolding arc_power
half = refl

sets_meter_time :
    umdk_m200_command (codes "set timedate 1 12 30 0 5 11 17 123456") 200
    ≡ done (codes "1640e2010001123000051117")
unfolding umdk_m200_command
sets_meter_time = refl

-- The first month of a year is 0, so that the month 0 is the request for the total.
month_zero :
    umdk_m200_command (codes "get value month 0 1") 200
    ≡ umdk_m200_command (codes "get value total 1") 200
unfolding umdk_m200_command
month_zero = refl

sets_tariffs :
    umdk_m200_command (codes "set schedule year all 2 1 7 0 2 23 0 1") 200
    ≡ done (codes "140100000007006300ffffffffffffffffffffffffff")
unfolding umdk_m200_command set_schedule
sets_tariffs = refl

sets_holidays :
    umdk_m230_command (codes "set holidays 1 1, 7 1, 9 5 12") 200
    ≡ done (codes "f20c020100000041" ++ codes "0500000100")
unfolding umdk_m230_command m230_set_holidays hex_byte
sets_holidays = refl

sets_points :
    umdk_m230_command (codes "set schedule month 3 weekends 2 1 7:0 2 23:30 5") 200
    ≡ done (codes "f105023d00271e57003800380038003800380038")
unfolding umdk_m230_command m230_set_schedule hex_byte
sets_points = refl

thirteenth_month : umdk_m230_command (codes "set holidays 1 13 1") 200 ≡ undefined
unfolding umdk_m230_command m230_set_holidays hex_byte
thirteenth_month = refl

meter_state : umdk_iec61107_command (codes "get status 12") 200 ≡ done (codes "0652000c2829")
unfolding umdk_iec61107_command hex_byte
meter_state = refl

sets_time :
    umdk_iec61107_command (codes "set time 12:30 7") 200
    ≡ done (codes "0257000728" ++ codes "31323a333029")
unfolding umdk_iec61107_command hex_byte
sets_time = refl

lacks_address : umdk_iec61107_command (codes "get volt") 200 ≡ undefined
unfolding umdk_iec61107_command hex_byte
lacks_address = refl

part_of_holidays :
    umdk_iec61107_command (codes "set holidays part_1 09 05 02 7") 200
    ≡ done (codes "1057010728524229")
unfolding umdk_iec61107_command hex_byte
part_of_holidays = refl

umdk_modbus_command-requests_example :
    All
      (λ w.
        umdk_modbus_command (w.0 ++ arguments 17 0x6b 3) 1024
        ≡ done (hex_bytes (bytes_of w.1 17 0x6b 3)))
      requests
umdk_modbus_command-requests_example =
    umdk_modbus_command-requests 17 0x6b 3 1024 (omega arith) (omega arith) (omega arith)
      (omega arith)

umdk_modbus_command-IsShort_example :
    IsShort 159 (umdk_modbus_command (codes "read hold_reg 1 0 a") 1024)
umdk_modbus_command-IsShort_example = umdk_modbus_command-IsShort (codes "read hold_reg 1 0 a") 1024

umdk_uart_command-umdk_irblaster_command_example :
    (umdk_uart_command (codes "send " ++ codes "01fe") 1024
      ≡ passed 200 (codes "01fe") (snprintf 1024 (codes "00" ++ codes "01fe")))
    × (umdk_irblaster_command (codes "send " ++ codes "01fe") 1024
        ≡ passed 50
            (codes "01fe")
            (snprintf 1024 (codes "00" ++ (hex_pad 2 (length (codes "01fe") / 2) ++ codes "01fe"))))
umdk_uart_command-umdk_irblaster_command_example =
    umdk_uart_command-umdk_irblaster_command (codes "01fe") 1024
