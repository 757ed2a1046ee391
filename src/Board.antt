-- ===== src/Board.antt =====
-- arch/riscv/sun8i-v85x: the interrupts and the mailbox of the board.
pub mod Irq
pub mod Dispatch
pub mod Mailbox
pub mod Gpio
pub mod Usart
pub mod System
pub mod VirtUart
mod Tests
mod DeviceTests
