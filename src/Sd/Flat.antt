-- ===== src/Sd/Flat.antt =====
-- src/io.c over src/sd.c: the flat memory of bytes that a card gives through the SPI bus.
