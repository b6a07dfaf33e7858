-- ===== src/Uart/Tests.antt =====
-- The theorem about src/uart.c at a concrete input.
use ee459spring.Base.{◌≡◌, arith, strtol_hex}
use ee459spring.Uart.{uart_write_32}
use ee459spring.Uart.Hex.{read-write_32}

reads_back : strtol_hex (uart_write_32 0xdeadbeef) 0 ≡ 0xdeadbeef
reads_back = read-write_32 0xdeadbeef (omega arith)
