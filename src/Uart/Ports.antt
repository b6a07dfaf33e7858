-- ===== src/Uart/Ports.antt =====
-- src/uart.c: the register table and the set-up of a port. Register writes are a list in their order.
use ee459spring.Base.{
  ℕ, List, [], ◌∷◌, u8, bit_and, bit_or, ◌<<<◌, ◌>>>◌, ◌==◌, not, Bool, ◌/◌, ◌-◌,
}

-- the registers of a port
pub data RegKind : Type 0 where
  ucsra ucsrb ucsrc ubrrl ubrrh udr : RegKind

-- a register of the USART with a number
pub record Reg : Type 0 where
  pub kind : RegKind
  pub usart : ℕ

abbrev pub reg : RegKind → ℕ → Reg
reg kind usart = record { kind = kind; usart = usart }

-- The bit numbers of the header `avr/io.h`, which are the same for each USART of the supported chips.
pub record AvrBits : Type 0 where
  pub ucsz0 : ℕ
  pub ucsz1 : ℕ
  pub rxen : ℕ
  pub txen : ℕ
  pub rxc : ℕ
  pub udre : ℕ

-- `struct uart_port`
pub record UartPort : Type 0 where
  pub port_ucsra : Reg
  pub port_ucsrb : Reg
  pub port_ucsrc : Reg
  pub port_ubrrl : Reg
  pub port_ubrrh : Reg
  pub port_udr : Reg
  pub bits : AvrBits

-- a row of the table
abbrev pub row : AvrBits → ℕ → UartPort
row bits n = record {
  port_ucsra = reg RegKind.ucsra n;
  port_ucsrb = reg RegKind.ucsrb n;
  port_ucsrc = reg RegKind.ucsrc n;
  port_ubrrl = reg RegKind.ubrrl n;
  port_ubrrh = reg RegKind.ubrrh n;
  port_udr = reg RegKind.udr n;
  bits = bits;
}

-- as built for the ATmega1284 or the ATmega2560; the ATmega328 has the first row only
abbrev pub uart_ports : AvrBits → List UartPort
uart_ports bits = row bits 0 ∷ row bits 1 ∷ []

-- the writes of `initialize_uart` on a row of the table
unfoldable pub initialize_uart : UartPort → ℕ → List (Reg × ℕ)
initialize_uart port ubrr_value =
    (port.port_ubrrh, u8 (ubrr_value >>> 8))
    ∷ (port.port_ubrrl, bit_and ubrr_value 255)
    ∷ (port.port_ucsrc, bit_or (1 <<< port.bits.ucsz1) (1 <<< port.bits.ucsz0))
    ∷ (port.port_ucsrb, bit_or (1 <<< port.bits.rxen) (1 <<< port.bits.txen))
    ∷ []

-- the status register's test for a byte that has arrived, and for one that may be written
abbrev pub uart_data_available : UartPort → ℕ → Bool
uart_data_available port status = not (bit_and status (1 <<< port.bits.rxc) == 0)

abbrev pub transmitter_ready : UartPort → ℕ → Bool
transmitter_ready port status = not (bit_and status (1 <<< port.bits.udre) == 0)

-- `MYUBRR`, with the clock in Hz
abbrev pub myubrr : ℕ → ℕ → ℕ
myubrr fosc baud = fosc / 16 / baud - 1
