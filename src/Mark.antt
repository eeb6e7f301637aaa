-- ===== src/Mark.antt =====
-- crates/trace-mark: what is printed on a label. The children follow its modules: the bindings of a
-- template, the template, and the commands for the printer.
pub mod Binding
pub mod Template
pub mod Zpl
