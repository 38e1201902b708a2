-- ===== src/Codegen/Field/Names.antt =====

