-- ===== src/Manager/Scheduler/InStep/Updates.antt =====
-- How OnLineUpdated in manager/router_scheduler.go changes the queues.
use zabbix_ddl_monitor.Syncer.Line.{Line}
use zabbix_ddl_monitor.Manager.Queue
use zabbix_ddl_monitor.Manager.Queue.{new_queue, remove_first}
use zabbix_ddl_monitor.Manager.Scheduler.InStep.{InStep}
