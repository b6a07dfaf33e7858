-- ===== src/Spi/Tests.antt =====
-- The theorem about src/spi.c at a concrete input.
use ee459spring.Pins.{Regs}
use ee459spring.Spi.{spi_device_enable}
use ee459spring.Spi.Select.{Selected, device_enable-Selected}

abbrev regs : Regs
regs = record { port = λ r. 0; ddr = λ r. 0xff }

device_enable-Selected_example : Selected 0 0 1 regs (spi_device_enable 1 regs)
device_enable-Selected_example = device_enable-Selected regs 1
